-- ===== src/Webhook/Addresses.antt =====
-- Addresses and networks as pytmbot/webhook.py and pytmbot/models/telegram_models.py use them, and
-- the validator of the latter with its two caches. The text of an address is read by a function that
-- the operations take: `none` is the `ValueError`.
use pytmbot.Base.{
  ℕ, ◌+◌, ◌-◌, ◌*◌, ◌/◌, ◌^◌, String, Bool, true, false, ◌||◌, Option, none, some, List, [], ◌∷◌,
  ◌++◌, leb, length, if◌then◌else◌,
}
use pytmbot.Base.Eq.{◌==◌, nat_eq, string_eq}

pub data Address : Type 0 where
  v4 v6 : ℕ → Address

pub record Network : Type 0 where
  pub address : Address
  pub prefix : ℕ

abbrev pub network : Address → ℕ → Network
network address prefix = record { address = address; prefix = prefix }

abbrev same_prefix : Address → Address → ℕ → Bool
same_prefix (v4 a) (v4 b) p = a / 2 ^ (32 - p) == b / 2 ^ (32 - p)
same_prefix (v6 a) (v6 b) p = a / 2 ^ (128 - p) == b / 2 ^ (128 - p)
same_prefix _ _ p = false

-- `ip in network`: the versions and the bits of the prefix are the same.
abbrev pub in_network : Address → Network → Bool
in_network ip n = same_prefix ip n.address n.prefix

unfoldable pub in_any : Address → List Network → Bool
in_any ip [] = false
in_any ip (n ∷ ns) = in_network ip n || in_any ip ns

abbrev dotted : ℕ → ℕ → ℕ → ℕ → ℕ
dotted a b c d = ((a * 256 + b) * 256 + c) * 256 + d

abbrev pub ipv4_ranges : List Network
ipv4_ranges =
    network (v4 (dotted 91 108 56 0)) 22
    ∷ network (v4 (dotted 91 108 4 0)) 22
    ∷ network (v4 (dotted 91 108 8 0)) 22
    ∷ network (v4 (dotted 91 108 16 0)) 22
    ∷ network (v4 (dotted 91 108 12 0)) 22
    ∷ network (v4 (dotted 149 154 160 0)) 20
    ∷ network (v4 (dotted 91 105 192 0)) 23
    ∷ network (v4 (dotted 91 108 20 0)) 22
    ∷ network (v4 (dotted 185 76 151 0)) 24
    ∷ []

abbrev pub ipv6_ranges : List Network
ipv6_ranges =
    network (v6 (0x20010b28f23d * 2 ^ 80)) 48
    ∷ network (v6 (0x20010b28f23f * 2 ^ 80)) 48
    ∷ network (v6 (0x2001067c04e8 * 2 ^ 80)) 48
    ∷ network (v6 (0x20010b28f23c * 2 ^ 80)) 48
    ∷ network (v6 (0x2a0af280 * 2 ^ 96)) 32
    ∷ []

-- The ranges of a validator: those above, and the configured ones of each version.
pub record Ranges : Type 0 where
  pub ipv4 : List Network
  pub ipv6 : List Network

-- `__init__` with `_extend_ranges`, on the networks that the configured texts are read as.
unfoldable pub extend_ranges : List Network → Ranges → Ranges
extend_ranges [] r = r
extend_ranges (n ∷ ns) r = extend_ranges ns (elim n.address [
  | v4 a ↦ record r { ipv4 = r.ipv4 ++ n ∷ [] }
  | v6 a ↦ record r { ipv6 = r.ipv6 ++ n ∷ [] }
])

-- One of the two caches: the set, as a list without repetition, and the deque of its order.
pub record Cache : Type 0 where
  pub members : List String
  pub order : List String

pub record Caches : Type 0 where
  pub validated : Cache
  pub rejected : Cache

abbrev pub fresh : Caches
fresh = record {
  validated = record { members = []; order = [] };
  rejected = record { members = []; order = [] };
}

-- `_MAX_VALIDATED_IPS` and `_MAX_REJECTED_IPS`
abbrev pub max_ips : ℕ
max_ips = 4_096

unfoldable pub is_member : String → List String → Bool
is_member ip [] = false
is_member ip (jp ∷ ips) = if jp == ip then true else is_member ip ips

-- `set.discard`
unfoldable pub discard : String → List String → List String
discard ip [] = []
discard ip (jp ∷ ips) = let rest = discard ip ips in if jp == ip then rest else jp ∷ rest

abbrev pub append : String → Cache → Cache
append ip c = record { members = c.members ++ ip ∷ []; order = c.order ++ ip ∷ [] }

-- `_remember_validated_ip` and `_remember_rejected_ip`; `none` is the `IndexError` of `popleft` on
-- an empty deque.
unfoldable pub remember : String → Cache → Option Cache
unfolding is_member discard
remember ip c =
    if is_member ip c.members
    then some c
    else if leb max_ips (length c.members)
    then elim c.order [
      | [] ↦ none
      | old ∷ rest ↦ some (append ip (record { members = discard old c.members; order = rest }))
    ]
    else some (append ip c)

-- Whether the ranges have an address.
abbrev pub in_ranges : Ranges → Address → Bool
in_ranges r (v4 a) = in_any (v4 a) r.ipv4
in_ranges r (v6 a) = in_any (v6 a) r.ipv6

unfoldable pub is_telegram_ip :
    (String → Option Address) → Ranges → String → Caches → Option (Bool × Caches)
unfolding remember in_any
is_telegram_ip parse r ip c =
    if is_member ip c.validated.members
    then some (true, c)
    else if is_member ip c.rejected.members
    then some (false, c)
    else elim (parse ip) [
      | none ↦ some (false, c)
      | some address ↦
          if in_ranges r address
          then elim (remember ip c.validated) [
            | none ↦ none
            | some validated ↦ some (true, record c { validated = validated })
          ]
          else elim (remember ip c.rejected) [
            | none ↦ none
            | some rejected ↦ some (false, record c { rejected = rejected })
          ]
    ]
