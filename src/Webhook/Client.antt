-- ===== src/Webhook/Client.antt =====
-- The address of a client: `_is_trusted_proxy` and `_resolve_client_ip` of pytmbot/webhook.py. The
-- header is a list of code points; `to_text` makes a text of one, and `parse` reads an address.
use pytmbot.Base.{
  ℕ, String, Bool, false, Option, none, some, List, [], ◌∷◌, ltb, length, if◌then◌else◌,
}
use pytmbot.Base.Text.{strip, split_on}
use pytmbot.Webhook.Addresses.{Address, Network, in_any}

-- `HTTPException` with its status, or the peer and the client.
pub data Resolved : Type 0 where
  refused : ℕ → Resolved
  resolved : (peer_ip client_ip : String) → Resolved

-- The pieces that are not empty, without the white space around them.
unfoldable pub keep_texts : List (List ℕ) → List (List ℕ)
keep_texts [] = []
keep_texts (piece ∷ pieces) =
    let rest = keep_texts pieces in elim (strip piece) [ [] ↦ rest | c ∷ text ↦ (c ∷ text) ∷ rest ]

abbrev comma : ℕ
comma = 44

module _ (to_text : List ℕ → String) (parse : String → Option Address)
    (trusted : List Network) where
  unfoldable pub is_trusted_proxy : String → Bool
  unfolding in_any
  is_trusted_proxy source_ip = elim (parse source_ip) [
    | none ↦ false
    | some address ↦ in_any address trusted
  ]

  -- The header is there and not empty.
  unfoldable pub resolve_forwarded : String → List ℕ → Resolved
  unfolding is_trusted_proxy keep_texts split_on
  resolve_forwarded peer_ip header = elim trusted [
    | [] ↦ refused 403
    | _ ∷ _ ↦
        if is_trusted_proxy peer_ip
        then if ltb 512 (length header)
          then refused 400
          else elim (keep_texts (split_on comma header)) [
            | [] ↦ refused 400
            | first ∷ _ ↦ elim (parse (to_text first)) [
              | none ↦ refused 400
              | some address ↦ resolved peer_ip (to_text first)
            ]
          ]
        else refused 403
  ]

  -- The peer is `none` where the connection names none.
  unfoldable pub resolve_client_ip : Option String → Option (List ℕ) → Resolved
  unfolding resolve_forwarded
  resolve_client_ip none x_forwarded_for = refused 400
  resolve_client_ip (some peer_ip) none = resolved peer_ip peer_ip
  resolve_client_ip (some peer_ip) (some []) = resolved peer_ip peer_ip
  resolve_client_ip (some peer_ip) (some (c ∷ header)) = resolve_forwarded peer_ip (c ∷ header)
