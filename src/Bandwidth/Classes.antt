-- ===== src/Bandwidth/Classes.antt =====
-- The classes of tc that limits have.
use rpi_network_filter.Common.{
  ℕ, ◌+◌, ◌≡◌, refl, sym, ap, ◌∙◌, ◌↔◌, Bool, List, ◌∷◌, ◌++◌, Text, codes, In, arith,
}
use rpi_network_filter.Strings.Decimal.{format_int, format_int-injective}
use rpi_network_filter.Models.{BandwidthLimit}
use rpi_network_filter.Db.{Db}
use rpi_network_filter.Bandwidth.{Command, get_device_ip, class_id, class_command, filter_command}

behind_prefix : (s t : Text) → codes "1:" ++ s ≡ codes "1:" ++ t → s ≡ t
behind_prefix s t h = cc

class_id-injective : (i j : ℕ) → class_id i ≡ class_id j → i ≡ j
unfolding class_id
class_id-injective i j h =
    let same =
      format_int-injective (i + 1) (j + 1)
        (behind_prefix (format_int (i + 1)) (format_int (j + 1)) h) in
    omega arith

class_of_999 : class_id 998 ≡ codes "1:999"
unfolding class_id format_int
class_of_999 = refl

-- Limits at different positions have different classes, and the class of a limit is the one that all
-- other traffic falls to exactly for the limit at position 998, the 999th.
pub class_id_lem :
    (i j : ℕ) → ((class_id i ≡ class_id j) ↔ (i ≡ j)) × ((class_id i ≡ codes "1:999") ↔ (i ≡ 998))
class_id_lem i j = (
  (class_id-injective i j, λ e. ap class_id e),
  (λ h. class_id-injective i 998 (h ∙ sym class_of_999), λ e. ap class_id e ∙ class_of_999),
)

module _ (works : Command → Bool) (s : Db) (iface : Text) (l : BandwidthLimit) where
  abbrev ip : Text
  ip = get_device_ip s l.device_mac

  -- The class of a limit at a position with its rate, directly followed by a filter for its address
  -- with this class, which no filter for the same address comes before.
  abbrev pub IsServed : ℕ → List Command → Type 0
  IsServed i commands =
      (before after : List Command) × (commands
        ≡ before
          ++ class_command iface (class_id i) l.download_kbps
            ∷ filter_command iface (codes "dst") ip (class_id i)
            ∷ after)
      × ((class : Text) → ¬ In (filter_command iface (codes "dst") ip class) before)

  -- Commands without a filter for the address.
  abbrev IsOther : List Command → Type 0
  IsOther commands = (class : Text) → ¬ In (filter_command iface (codes "dst") ip class) commands
