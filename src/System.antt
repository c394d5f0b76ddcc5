-- ===== src/System.antt =====
-- internal/services/system.go: SystemService, which reads the state of the machine. The files of the
-- kernel and the outputs of commands are parameters: none where the read or the command fails.
use rpi_network_filter.Common.{
  not, true, false, Bool, ◌==◌, Option, none, some, List, [], ◌∷◌, ◌++◌, Text, codes, text_eq, take,
  if◌then◌else◌,
}
use rpi_network_filter.Config.{Config}
use rpi_network_filter.Strings.{
  has_prefix, after, contains, is_nil, trim_space, fields, split, join,
}

pub record SystemInfo : Type 0 where
  pub uptime : Text
  pub load_avg : Text
  pub mem_total : Text
  pub mem_used : Text
  pub mem_free : Text
  pub wan_interface : Text
  pub lan_interface : Text
  pub wan_ip : Text
  pub lan_ip : Text
  pub wan_rx_bytes : Text
  pub wan_tx_bytes : Text

-- SplitN(line, ":", 2), if there are two parts.
unfoldable pub split_colon : Text → Option (Text × Text)
split_colon [] = none
split_colon (c ∷ s) =
    let rest = split_colon s in
    if c == b':' then some ([], s) else elim rest [ none ↦ none | some (k, v) ↦ some (c ∷ k, v) ]

-- The entry of a key in the map that parseMeminfo builds: the last line of that key.
unfoldable pub meminfo_value : Text → Text → List Text → Text
unfolding split_colon trim_space text_eq
meminfo_value key found [] = found
meminfo_value key found (l ∷ ls) =
    meminfo_value key
      (elim (split_colon l) [
        | none ↦ found
        | some (k, v) ↦ if text_eq (trim_space k) key then trim_space v else found
      ])
      ls

unfoldable pub parse_meminfo : Text → Text → Text
unfolding meminfo_value split
parse_meminfo text key = meminfo_value key [] (split 10 text)

-- The first field behind a field `inet`, up to its slash.
unfoldable pub inet_address : List Text → Text
unfolding split text_eq
inet_address [] = []
inet_address (f ∷ []) = []
inet_address (f ∷ g ∷ fs) =
    let rest = inet_address (g ∷ fs) in
    if text_eq f (codes "inet") then join [] (take 1 (split b'/' g)) else rest

abbrev pub first_field : Text → Text
first_field text = join [] (take 1 (fields text))

-- An unreadable file leaves a value empty.
unfoldable pub uptime_text : Option Text → Text
unfolding fields
uptime_text none = []
uptime_text (some text) = if is_nil (fields text) then [] else first_field text ++ codes "s"

unfoldable pub load_text : Option Text → Text
unfolding fields join
load_text none = []
load_text (some text) = elim (fields text) [
  | a ∷ b ∷ c ∷ rest ↦ join (codes " ") (a ∷ b ∷ c ∷ [])
  | _ ↦ []
]

unfoldable pub mem_free : Text → Text
unfolding parse_meminfo
mem_free text =
    let available = parse_meminfo text (codes "MemAvailable") in
    if is_nil available then parse_meminfo text (codes "MemFree") else available

abbrev pub or_empty : Option Text → (Text → Text) → Text
or_empty none f = []
or_empty (some text) f = f text

module _ (read_file : Text → Option Text) (output : List Text → Option Text) where
  unfoldable pub read_stat : Text → Text → Text
  unfolding trim_space
  read_stat iface stat =
      elim (read_file (codes "/sys/class/net/" ++ iface ++ codes "/statistics/" ++ stat)) [
        | none ↦ codes "0"
        | some text ↦ trim_space text
      ]

  unfoldable pub get_info : Config → SystemInfo
  unfolding uptime_text load_text parse_meminfo mem_free inet_address fields read_stat
  get_info cfg = record {
    uptime = uptime_text (read_file (codes "/proc/uptime"));
    load_avg = load_text (read_file (codes "/proc/loadavg"));
    mem_total =
        or_empty (read_file (codes "/proc/meminfo")) (λ t. parse_meminfo t (codes "MemTotal"));
    mem_used = [];
    mem_free = or_empty (read_file (codes "/proc/meminfo")) mem_free;
    wan_interface = cfg.wan_interface;
    lan_interface = cfg.lan_interface;
    wan_ip =
        or_empty
          (output (
            codes "ip"
            ∷ codes "-4"
            ∷ codes "-o"
            ∷ codes "addr"
            ∷ codes "show"
            ∷ cfg.wan_interface
            ∷ []))
          (λ t. inet_address (fields t));
    lan_ip = cfg.lan_gateway;
    wan_rx_bytes = read_stat cfg.wan_interface (codes "rx_bytes");
    wan_tx_bytes = read_stat cfg.wan_interface (codes "tx_bytes");
  }

-- A result of the test, without the text of an error.
pub record ConnectivityResult : Type 0 where
  pub host : Text
  pub success : Bool
  pub latency : Text

-- The text behind the first `time=`.
unfoldable pub behind_time : Text → Text
behind_time [] = []
behind_time (c ∷ s) =
    let rest = behind_time s in
    if has_prefix (c ∷ s) (codes "time=") then after (c ∷ s) (codes "time=") else rest

-- The text before the first `time=`.
unfoldable pub before_time : Text → Text
before_time [] = []
before_time (c ∷ s) =
    let rest = before_time s in if has_prefix (c ∷ s) (codes "time=") then [] else c ∷ rest

-- The latency among the lines of an output; none for the panic where nothing follows `time=`.
unfoldable pub find_latency : Text → List Text → Option Text
unfolding contains behind_time before_time fields
find_latency found [] = some found
find_latency found (l ∷ ls) =
    let skip = find_latency found ls in
    if not (contains l (codes "time="))
    then skip
    else elim (fields (before_time (behind_time l))) [ [] ↦ none | f ∷ fs ↦ find_latency f ls ]

module _ (output : List Text → Option Text) where
  unfoldable pub test_host : Text → Option ConnectivityResult
  unfolding find_latency split
  test_host host =
      elim (output (codes "ping" ∷ codes "-c" ∷ codes "1" ∷ codes "-W" ∷ codes "3" ∷ host ∷ [])) [
        | none ↦ some (record { host = host; success = false; latency = [] })
        | some text ↦ elim (find_latency [] (split 10 text)) [
          | none ↦ none
          | some latency ↦ some (record { host = host; success = true; latency = latency })
        ]
      ]

  -- The results for some hosts; none if the call panics.
  unfoldable pub test_hosts : List Text → Option (List ConnectivityResult)
  unfolding test_host
  test_hosts [] = some []
  test_hosts (h ∷ hs) = elim (test_host h) [
    | none ↦ none
    | some r ↦ elim (test_hosts hs) [ none ↦ none | some rs ↦ some (r ∷ rs) ]
  ]

  unfoldable pub test_connectivity : Option (List ConnectivityResult)
  unfolding test_hosts
  test_connectivity = test_hosts (codes "1.1.1.1" ∷ codes "8.8.8.8" ∷ codes "google.com" ∷ [])
