-- ===== src/Traffic/Journal.antt =====
-- internal/services/trafficlog.go: tailJournal, which follows the journal behind a cursor that it
-- keeps in kv_store, tailDnsmasqLogFile, and the deletion of old rows. A line of journalctl is what
-- encoding/json makes of it.
pub mod Resume
use rpi_network_filter.Common.{
  ℕ, ◌-◌, ltb, ◌≡◌, refl, sym, ap, ◌∙◌, ◌⊎◌, inl, inr, Bool, true, false, not, ◌&&◌, Bool-cases,
  Option, none, some, List, [], ◌∷◌, ◌++◌, Text, codes, text_eq, text_eq_refl, keep, In,
  if◌then◌else◌,
}
use rpi_network_filter.Strings.{is_nil, contains}
use rpi_network_filter.Models.{Setting}
use rpi_network_filter.Db.Pairs.{put_setting, value, put_setting-value}
use rpi_network_filter.Traffic.{TrafficEntry, TrafficLog}
use rpi_network_filter.Traffic.Lines.{parse_nf_line, parse_dns_line}

-- journalEntry, with the fields that matter.
pub record JournalEntry : Type 0 where
  pub cursor : Text
  pub message : Text

-- The loop's variables, the history and kv_store.
pub record Tail : Type 0 where
  pub log : TrafficLog
  pub kv_store : List Setting
  pub last_cursor_save : ℕ
  pub last_cursor : Text

unfoldable pub get_cursor : Text → List Setting → Text
get_cursor key rows = value rows key []

unfoldable pub set_cursor : Text → Text → List Setting → List Setting
set_cursor key cursor rows = put_setting (record { key = key; value = cursor }) rows

-- The arguments of journalctl.
unfoldable pub journal_args : List Text → Text → List Text
journal_args base cursor =
    base
    ++ codes "-o"
      ∷ codes "json"
      ∷ codes "--no-pager"
      ∷ codes "--follow"
      ∷ (if is_nil cursor then codes "--since=1 day ago" else codes "--after-cursor=" ++ cursor)
      ∷ []

-- What an entry does to the history.
unfoldable pub handle_entry : Text → JournalEntry → TrafficLog → TrafficLog
handle_entry name e s =
    if text_eq name (codes "kernel")
    then (if contains e.message (codes "NETFILTER") then parse_nf_line e.message s else s)
    else if text_eq name (codes "dnsmasq")
    then parse_dns_line e.message s
    else s

module _ (name key : Text) where
  -- The variables behind an entry, before the cursor may be saved.
  unfoldable pub take_entry : JournalEntry → Tail → Tail
  take_entry e t = record t { log = handle_entry name e t.log; last_cursor = e.cursor }

  -- The cursor is saved every five seconds.
  unfoldable pub save_cursor : ℕ → Tail → Tail
  save_cursor now t =
      if ltb 5 (now - t.last_cursor_save) && not (is_nil t.last_cursor)
      then record t { kv_store = set_cursor key t.last_cursor t.kv_store; last_cursor_save = now }
      else t

  -- The lines of a stream, with the times at which they are read; none is a line that is no entry.
  unfoldable pub read_lines : List (Option JournalEntry × ℕ) → Tail → Tail
  read_lines [] t = t
  read_lines ((none, now) ∷ ls) t = read_lines ls t
  read_lines ((some e, now) ∷ ls) t = read_lines ls (save_cursor now (take_entry e t))

  -- The end of a stream.
  unfoldable pub end_stream : Tail → Tail
  end_stream t =
      if is_nil t.last_cursor
      then t
      else record t { kv_store = set_cursor key t.last_cursor t.kv_store }

-- The lines of `tail -F`.
unfoldable pub read_log_file : List Text → TrafficLog → TrafficLog
read_log_file [] s = s
read_log_file (l ∷ ls) s = read_log_file ls (parse_dns_line l s)

-- The days that rows are kept, from the setting log_retention_days.
unfoldable pub retention_days : List Setting → Text
retention_days settings =
    let days = value settings (codes "log_retention_days") [] in
    if is_nil days then codes "30" else days

-- A round of cleanOldEntries: `cutoff` is datetime('now', '-n days'), none if that is no time.
unfoldable pub clean_old_entries : (ℕ → Text → Option ℕ) → List Setting → TrafficLog → TrafficLog
clean_old_entries cutoff settings s = elim (cutoff s.now (retention_days settings)) [
  | none ↦ s
  | some time ↦ record s { query_log = keep (λ e. not (ltb e.timestamp time)) s.query_log }
]
