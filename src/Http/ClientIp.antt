-- ===== src/Http/ClientIp.antt =====
-- internal/httpapi/middleware/clientip.go: the address that a request is attributed to. Addresses,
-- prefixes and their parsing are net/netip's, and come as parameters.
pub mod Spoofing
use portfolio_backend.Base.{
  ℕ, List, [], ◌∷◌, ◌++◌, Bool, Option, none, some, any, map, ◌==◌, if◌then◌else◌,
}
use portfolio_backend.Base.Text.{Text, split}
use portfolio_backend.Base.Utf8.{trim_space}

-- strings.Join(forwarded, ",")
unfoldable pub join_comma : List Text → Text
join_comma [] = []
join_comma (h ∷ []) = h
join_comma (h ∷ g ∷ rest) = h ++ (b',' ∷ join_comma (g ∷ rest))

module _ {Address Prefix : Type 0} (unmap : Address → Address) (contains : Prefix → Address → Bool)
    (trusted_proxies : List Prefix) where
  unfoldable pub is_trusted : Address → Bool
  is_trusted address = any (λ p. contains p (unmap address)) trusted_proxies

  -- The loop from the end of the chain: the last untrusted entry, if there is one.
  unfoldable pub last_untrusted : List Address → Option Address
  last_untrusted [] = none
  last_untrusted (a ∷ chain) = elim (last_untrusted chain) [
    | some found ↦ some found
    | none ↦ if is_trusted a then none else some a
  ]

  unfoldable pub from_chain : Address → List Address → Address
  from_chain peer [] = peer
  from_chain peer (first ∷ chain) = elim (last_untrusted (first ∷ chain)) [
    | some found ↦ found
    | none ↦ first
  ]

module _ {Address : Type 0} (unmap : Address → Address) (parse_addr : Text → Option Address) where
  unfoldable pub parse_unmapped : Text → Option Address
  parse_unmapped value = elim (parse_addr value) [ none ↦ none | some a ↦ some (unmap a) ]

  -- net.SplitHostPort is the parameter `split_host_port`.
  unfoldable pub parse_remote_address : (Text → Option Text) → Text → Option Address
  parse_remote_address split_host_port value = elim (split_host_port value) [
    | none ↦ none
    | some host ↦ parse_unmapped host
  ]

  -- All parts must parse.
  unfoldable pub parse_parts : List Text → Option (List Address)
  parse_parts [] = some []
  parse_parts (part ∷ parts) = elim (parse_unmapped (trim_space part)) [
    | none ↦ none
    | some a ↦ elim (parse_parts parts) [ none ↦ none | some rest ↦ some (a ∷ rest) ]
  ]

  unfoldable pub parse_forwarded_chain : Text → Option (List Address)
  parse_forwarded_chain value = parse_parts (split b',' value)

module _ {Address Prefix : Type 0} (parse_addr : Text → Option Address) (unmap : Address → Address)
    (contains : Prefix → Address → Bool) (split_host_port : Text → Option Text)
    (trusted_proxies : List Prefix) where
  -- The headers are read only if there is one, and used only if all of it parses.
  unfoldable pub from_forwarded : Address → List Text → Address
  from_forwarded peer [] = peer
  from_forwarded peer (h ∷ headers) =
      elim (parse_forwarded_chain unmap parse_addr (join_comma (h ∷ headers))) [
        | none ↦ peer
        | some chain ↦ from_chain unmap contains trusted_proxies peer chain
      ]

  -- ClientIPResolver.Resolve of a remote address and the X-Forwarded-For headers; `none` is
  -- ErrInvalidRemoteAddress.
  unfoldable pub resolve : Text → List Text → Option Address
  resolve remote_addr forwarded =
      elim (parse_remote_address unmap parse_addr split_host_port remote_addr) [
        | none ↦ none
        | some peer ↦ some (
            if is_trusted unmap contains trusted_proxies peer
            then from_forwarded peer forwarded
            else peer)
      ]
