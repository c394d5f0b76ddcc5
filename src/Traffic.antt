-- ===== src/Traffic.antt =====
-- internal/services/trafficlog.go: TrafficLogService, the history of DNS queries and of packets. This
-- file holds its table; the lines that feed it are in Traffic.Lines, and what is asked of it in
-- Traffic.Queries.
pub mod Lines
pub mod Queries
pub mod Policies
pub mod Journal
use rpi_network_filter.Common.{
  ℕ, ◌+◌, ltb, Bool, true, false, List, [], ◌∷◌, ◌++◌, Text, codes, text_eq, Option, none, some,
  length, if◌then◌else◌,
}
use rpi_network_filter.Strings.{is_nil}

-- A row of query_log, with the timestamp that the statement gives it.
pub record TrafficEntry : Type 0 where
  pub id : ℕ
  pub timestamp : ℕ
  pub src_ip : Text
  pub dst_ip : Text
  pub dst_port : Text
  pub protocol : Text
  pub action : Text
  pub src_mac : Text
  pub domain : Text
  pub source : Text
  pub policy : Text

-- The table, its AUTOINCREMENT counter, and dnsCache: domains by the addresses they resolved to.
pub record TrafficLog : Type 0 where
  pub now : ℕ
  pub query_log : List TrafficEntry
  pub query_log_seq : ℕ
  pub dns_cache : List (Text × Text)

unfoldable pub cached_domain : Text → List (Text × Text) → Text
unfolding text_eq
cached_domain ip [] = []
cached_domain ip ((k, d) ∷ entries) =
    let rest = cached_domain ip entries in if text_eq k ip then d else rest

unfoldable pub forget : Text → List (Text × Text) → List (Text × Text)
unfolding text_eq
forget ip [] = []
forget ip ((k, d) ∷ entries) =
    let rest = forget ip entries in if text_eq k ip then rest else (k, d) ∷ rest

-- The answer to a name, kept for the reverse; a cache that grows over 10000 starts anew.
unfoldable pub remember : Text → Text → List (Text × Text) → List (Text × Text)
unfolding forget
remember ip domain cache =
    let cache' = (ip, domain) ∷ forget ip cache in if ltb 10000 (length cache') then [] else cache'

unfoldable pub insert_entry : TrafficEntry → TrafficLog → TrafficLog
insert_entry e s = record s {
  query_log =
      s.query_log
      ++ record e {
        id = s.query_log_seq + 1;
        timestamp = s.now;
        source = if is_nil e.source then codes "forward" else e.source;
      }
        ∷ [];
  query_log_seq = s.query_log_seq + 1;
}

-- Clear: the rows and the counter; the cursors of the journal stay.
unfoldable pub clear : TrafficLog → TrafficLog
clear s = record s { query_log = []; query_log_seq = 0 }
