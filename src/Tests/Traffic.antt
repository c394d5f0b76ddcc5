-- ===== src/Tests/Traffic.antt =====
-- The history: its theorems at concrete inputs.
use rpi_network_filter.Common.{
  refl, Bool, true, false, all, arith, ℕ, ◌≡◌, ◌≤◌, [], ◌∷◌, Text, codes, length,
}
use rpi_network_filter.Validate.{valid_policy_name}
use rpi_network_filter.Traffic.Lines.{nflog_re, nf_policy, parse_nf_line}
use rpi_network_filter.Regexp.Submatch.{find_submatch, run, run_class, run_greedy, literal, plus}
use rpi_network_filter.Traffic.Policies.{
  accepted, logged, is_inner, not_blank, IsLogged, parse_nf_line-logged,
}
use rpi_network_filter.Regexp.Classes.{Only}
use rpi_network_filter.Tests.Data.{validation}
use rpi_network_filter.Common.{none, some, ◌++◌, In, ◌⊎◌, List}
use rpi_network_filter.Traffic.Journal.{JournalEntry, Tail, get_cursor, read_lines, end_stream}
use rpi_network_filter.Traffic.Journal.Resume.{Line, cursors, handle_all, read_lines-cursor}
use rpi_network_filter.Traffic.{TrafficEntry, TrafficLog}
use rpi_network_filter.Traffic.Queries.{TrafficFilter, query_paginated, newest_first, matching_rows}
use rpi_network_filter.Traffic.Queries.Pages.{
  query_paginated-bounds, pages_up_to, pages_up_to-newest_first,
}

abbrev row : ℕ → TrafficEntry
row id = record {
  id = id;
  timestamp = 100;
  src_ip = codes "192.168.4.5";
  dst_ip = [];
  dst_port = codes "53";
  protocol = codes "DNS";
  action = codes "query";
  src_mac = [];
  domain = codes "example.com";
  source = codes "dns";
  policy = [];
}

abbrev history : TrafficLog
history = record {
  now = 100;
  query_log = row 1 ∷ row 2 ∷ row 3 ∷ [];
  query_log_seq = 3;
  dns_cache = [];
}

abbrev second_page : TrafficFilter
second_page = record {
  page = 2;
  per_page = 2;
  action = codes "query";
  query = codes "Example";
  from = [];
  to = [];
  source = [];
}

abbrev no_time : ℕ → Text
no_time n = []

query_paginated-bounds_example :
    let r = query_paginated no_time second_page history in
    (1 ≤ r.page)
    × (r.page ≤ r.pages)
    × (1 ≤ r.per_page)
    × (r.per_page ≤ 500)
    × (length r.entries ≤ r.per_page)
query_paginated-bounds_example = query_paginated-bounds no_time second_page history

pages_up_to-newest_first_example :
    pages_up_to no_time second_page history (query_paginated no_time second_page history).pages
    ≡ newest_first (matching_rows no_time second_page history)
pages_up_to-newest_first_example = pages_up_to-newest_first no_time second_page history

abbrev packet : Text
packet = codes "IN=wlan0 OUT=eth1 SRC=192.168.4.5 DST=192.0.2.1 PROTO=TCP DPT=443"

only : (f : ℕ → Bool) (s : Text) → all f s ≡ true → Only f s
only f [] h = tt
only f (c ∷ s) h = (ground arith, only f s (ground arith))

abbrev home : Text
home = codes "Home-2"

is_name : valid_policy_name home ≡ true
unfolding validation
is_name = refl

found :
    find_submatch nflog_re (logged false home packet)
    ≡ some (codes "192.168.4.5" ∷ codes "192.0.2.1" ∷ codes "TCP" ∷ [])
unfolding find_submatch nflog_re run run_class run_greedy literal plus
found = refl

parse_nf_line-logged_example :
    IsLogged
      (codes "blocked")
      home
      (codes "192.168.4.5")
      (codes "192.0.2.1")
      (codes "TCP")
      history
      (parse_nf_line (logged false home packet) history)
parse_nf_line-logged_example =
    parse_nf_line-logged false home packet (codes "192.168.4.5") (codes "192.0.2.1") (codes "TCP")
      history is_name (only not_blank home refl) (only is_inner packet refl) found

-- A name with a blank is lost.
blank_name_lost : nf_policy (accepted (codes "Guest wifi") packet) ≡ []
unfolding nf_policy
blank_name_lost = refl

abbrev kernel_line : ℕ → Line
kernel_line n = (some (record { cursor = codes "c" ++ n ∷ []; message = packet }), n)

abbrev fresh_tail : Tail
fresh_tail = record { log = history; kv_store = []; last_cursor_save = 0; last_cursor = [] }

abbrev next_entry : JournalEntry
next_entry = record { cursor = codes "c9"; message = packet }

abbrev journal : List Line
journal = kernel_line 4 ∷ (none, 5) ∷ kernel_line 8 ∷ []

read_lines-cursor_example :
    ((read_lines (codes "kernel") (codes "kernel-cursor") journal fresh_tail).log
      ≡ handle_all (codes "kernel") journal history)
    × ((get_cursor
            (codes "kernel-cursor")
            (read_lines (codes "kernel") (codes "kernel-cursor") journal fresh_tail).kv_store
          ≡ get_cursor (codes "kernel-cursor") [])
        ⊎ In
            (get_cursor
              (codes "kernel-cursor")
              (read_lines (codes "kernel") (codes "kernel-cursor") journal fresh_tail).kv_store)
            (cursors journal))
    × (get_cursor
          (codes "kernel-cursor")
          (end_stream (codes "kernel") (codes "kernel-cursor") (
            read_lines
              (codes "kernel")
              (codes "kernel-cursor")
              (journal ++ (some next_entry, 9) ∷ [])
              fresh_tail)).kv_store
        ≡ codes "c9")
read_lines-cursor_example =
    read_lines-cursor (codes "kernel") (codes "kernel-cursor") journal next_entry 9 fresh_tail refl
