-- ===== src/Traffic/Queries.antt =====
-- internal/services/trafficlog.go: what is asked of the history: recent rows, searches, pages and
-- statistics. How SQLite writes a timestamp, for comparisons with texts, is a parameter.
pub mod Pages
use rpi_network_filter.Common.{
  ℕ, ◌+◌, ◌-◌, ◌*◌, ◌/◌, ◌%◌, ◌==◌, ltb, leb, Bool, true, false, not, ◌&&◌, ◌||◌, List, [], ◌∷◌,
  ◌++◌, Text, codes, text_eq, length, take, drop, keep, any, count_where, map, if◌then◌else◌,
}
use rpi_network_filter.Strings.{is_nil, lower}
use rpi_network_filter.Db.{order_by, text_lt}
use rpi_network_filter.Traffic.{TrafficEntry, TrafficLog}

-- SQLite's LIKE: `%` stands for any text, `_` for any character, and case does not matter.
unfoldable pub like : Text → Text → Bool
unfolding lower
like [] [] = true
like [] (c ∷ s) = false
like (p ∷ ps) [] = p == b'%' && like ps []
like (p ∷ ps) (c ∷ s) =
    let skip = like ps (c ∷ s) in
    let stay = like (p ∷ ps) s in
    let next = like ps s in
    if p == b'%' then skip || stay else (p == b'_' || lower p == lower c) && next

-- ORDER BY id DESC
unfoldable pub newest_first : List TrafficEntry → List TrafficEntry
newest_first rows = order_by (λ a b. ltb b.id a.id) rows

unfoldable pub recent_entries : ℕ → TrafficLog → List TrafficEntry
unfolding newest_first
recent_entries limit s = take (if limit == 0 then 200 else limit) (newest_first s.query_log)

-- The columns that a text is looked for in.
unfoldable pub mentions : Text → TrafficEntry → Bool
unfolding like
mentions query e =
    let pattern = codes "%" ++ (query ++ codes "%") in
    like pattern e.domain
    || like pattern e.src_ip
    || like pattern e.dst_ip
    || like pattern e.dst_port

unfoldable pub search : Text → ℕ → TrafficLog → List TrafficEntry
unfolding mentions newest_first
search query limit s =
    take (if limit == 0 then 100 else limit) (newest_first (keep (mentions query) s.query_log))

pub record TrafficFilter : Type 0 where
  pub page : ℕ
  pub per_page : ℕ
  pub action : Text
  pub query : Text
  pub from : Text
  pub to : Text
  pub source : Text

pub record PagedResult : Type 0 where
  pub entries : List TrafficEntry
  pub total : ℕ
  pub page : ℕ
  pub pages : ℕ
  pub per_page : ℕ

-- A condition that an empty setting, or `all`, leaves out.
abbrev pub is_any : Text → Bool
is_any t = is_nil t || text_eq t (codes "all")

unfoldable pub clamp_per_page : ℕ → ℕ
clamp_per_page n = if n == 0 || ltb 500 n then 50 else n

-- How many pages a number of rows fills, one at least.
unfoldable pub page_count : ℕ → ℕ → ℕ
page_count total per_page =
    let pages = (total + per_page - 1) / per_page in if ltb pages 1 then 1 else pages

-- The page that is shown: the asked one, or the first or last one.
unfoldable pub clamp_page : ℕ → ℕ → ℕ
clamp_page page pages =
    let page' = if ltb page 1 then 1 else page in if ltb pages page' then pages else page'

module _ (datetime : ℕ → Text) where
  -- The clauses of WHERE, joined by AND.
  unfoldable pub matches : TrafficFilter → TrafficEntry → Bool
  unfolding mentions text_eq text_lt
  matches f e =
      (is_any f.action || text_eq e.action f.action)
      && (is_any f.source || text_eq e.source f.source)
      && (is_nil f.query || mentions f.query e)
      && (is_nil f.from || not (text_lt (datetime e.timestamp) f.from))
      && (is_nil f.to || not (text_lt f.to (datetime e.timestamp)))

  unfoldable pub matching_rows : TrafficFilter → TrafficLog → List TrafficEntry
  unfolding matches
  matching_rows f s = keep (matches f) s.query_log

  unfoldable pub query_paginated : TrafficFilter → TrafficLog → PagedResult
  unfolding matching_rows clamp_per_page page_count clamp_page newest_first
  query_paginated f s =
      let per_page = clamp_per_page f.per_page in
      let rows = matching_rows f s in
      let pages = page_count (length rows) per_page in
      let page = clamp_page f.page pages in
      record {
        entries = take per_page (drop ((page - 1) * per_page) (newest_first rows));
        total = length rows;
        page = page;
        pages = pages;
        per_page = per_page;
      }

-- The seconds that timeWhereClause looks back, `none` for all time.
unfoldable pub time_range : Text → ℕ → TrafficEntry → Bool
unfolding text_eq
time_range range now e =
    if text_eq range (codes "all")
    then true
    else let back =
        if text_eq range (codes "1h")
        then 3600
        else if text_eq range (codes "7d")
        then 604800
        else if text_eq range (codes "30d")
        then 2592000
        else 86400 in
      leb now (e.timestamp + back)

pub record StatsSummary : Type 0 where
  pub total : ℕ
  pub queries : ℕ
  pub allowed : ℕ
  pub blocked : ℕ
  pub unique_domains : ℕ
  pub unique_clients : ℕ

-- How many different texts that are not empty: COUNT(DISTINCT CASE …).
unfoldable pub distinct_count : List Text → ℕ
unfolding text_eq
distinct_count [] = 0
distinct_count (t ∷ ts) =
    let rest = distinct_count ts in if is_nil t || any (text_eq t) ts then rest else 1 + rest

unfoldable pub summary : Text → TrafficLog → StatsSummary
unfolding time_range distinct_count
summary range s =
    let rows = keep (time_range range s.now) s.query_log in
    record {
      total = length rows;
      queries = count_where (λ e. text_eq e.action (codes "query")) rows;
      allowed = count_where (λ e. text_eq e.action (codes "allowed")) rows;
      blocked = count_where (λ e. text_eq e.action (codes "blocked")) rows;
      unique_domains = distinct_count (map (λ e. e.domain) rows);
      unique_clients = distinct_count (map (λ e. e.src_ip) rows);
    }

-- GROUP BY: the keys in the order of their first rows, with how many rows have each.
unfoldable pub bump : Text → List (Text × ℕ) → List (Text × ℕ)
unfolding text_eq
bump key [] = (key, 1) ∷ []
bump key ((k, n) ∷ counts) =
    let rest = bump key counts in if text_eq k key then (k, n + 1) ∷ counts else (k, n) ∷ rest

unfoldable pub group_counts : List Text → List (Text × ℕ)
unfolding bump
group_counts [] = []
group_counts (t ∷ ts) = bump t (group_counts ts)

-- ORDER BY cnt DESC LIMIT ?
unfoldable pub top_counts : ℕ → List Text → List (Text × ℕ)
unfolding group_counts
top_counts limit keys =
    take (if limit == 0 then 10 else limit) (order_by (λ a b. ltb b.1 a.1) (group_counts keys))

-- The domain of a row, or its address.
abbrev pub destination : TrafficEntry → Text
destination e = if is_nil e.domain then e.dst_ip else e.domain

unfoldable pub top_domains : Text → Text → ℕ → TrafficLog → List (Text × ℕ)
unfolding time_range top_counts text_eq
top_domains action range limit s = top_counts limit (
    map destination (
      keep
        (λ e.
          not (is_nil e.domain && is_nil e.dst_ip)
          && time_range range s.now e
          && (is_any action || text_eq e.action action))
        s.query_log))

unfoldable pub top_clients : Text → ℕ → TrafficLog → List (Text × ℕ)
unfolding time_range top_counts
top_clients range limit s = top_counts limit (
    map (λ e. e.src_ip) (keep (λ e. not (is_nil e.src_ip) && time_range range s.now e) s.query_log))

pub record TimePoint : Type 0 where
  pub time : Text
  pub queries : ℕ
  pub allowed : ℕ
  pub blocked : ℕ

-- The seconds that TimeSeries looks back.
unfoldable pub series_seconds : Text → ℕ
unfolding text_eq
series_seconds range =
    if text_eq range (codes "1h")
    then 3600
    else if text_eq range (codes "7d")
    then 604800
    else if text_eq range (codes "30d")
    then 2592000
    else 86400

-- The bucket of a time: five minutes, an hour or a day. `strftime` is SQLite's.
unfoldable pub bucket : (Text → ℕ → Text) → Text → ℕ → Text
unfolding text_eq
bucket strftime range t =
    if text_eq range (codes "1h")
    then strftime (codes "%Y-%m-%d %H:%M") (t - t / 60 % 60 % 5 * 60)
    else if text_eq range (codes "30d")
    then strftime (codes "%Y-%m-%d") t
    else strftime (codes "%Y-%m-%d %H:00") t

-- GROUP BY: the keys, each once.
unfoldable pub group_keys : List Text → List Text
unfolding text_eq
group_keys [] = []
group_keys (k ∷ ks) = let rest = group_keys ks in if any (text_eq k) rest then rest else k ∷ rest

unfoldable pub time_series : (Text → ℕ → Text) → Text → TrafficLog → List TimePoint
unfolding series_seconds bucket group_keys text_eq
time_series strftime range s =
    let rows = keep (λ e. leb s.now (e.timestamp + series_seconds range)) s.query_log in
    let at = λ (e : TrafficEntry). bucket strftime range e.timestamp in
    map
      (λ key. record {
        time = key;
        queries = count_where (λ e. text_eq (at e) key && text_eq e.action (codes "query")) rows;
        allowed = count_where (λ e. text_eq (at e) key && text_eq e.action (codes "allowed")) rows;
        blocked = count_where (λ e. text_eq (at e) key && text_eq e.action (codes "blocked")) rows;
      })
      (order_by text_lt (group_keys (map at rows)))
