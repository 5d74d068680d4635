-- ===== src/Http/ClientIp/Spoofing.antt =====
-- What a client can and cannot make of its address by the headers that it sends.
use portfolio_backend.Base.{
  ap, ◌≡◌, refl, ◌∙◌, Option-cases, inl, inr, List, [], ◌∷◌, ◌++◌, Bool, true, false, Option, none,
  some, All,
}
use portfolio_backend.Base.Text.{Text, split, split-append}
use portfolio_backend.Base.Utf8.{trim_space}
use portfolio_backend.Http.ClientIp.{
  is_trusted, last_untrusted, from_chain, parse_unmapped, parse_parts, parse_remote_address,
  parse_forwarded_chain, join_comma, from_forwarded, resolve,
}

module _ {Address Prefix : Type 0} (unmap : Address → Address) (contains : Prefix → Address → Bool)
    (trusted_proxies : List Prefix) where
  abbrev pub Trusted : Address → Type 0
  Trusted a = is_trusted unmap contains trusted_proxies a ≡ true

  last_untrusted-Trusted :
      (back : List Address)
      → All Trusted back
      → last_untrusted unmap contains trusted_proxies back ≡ none
  unfolding last_untrusted
  last_untrusted-Trusted [] a = refl
  last_untrusted-Trusted (b ∷ back) a = rw (last_untrusted-Trusted back a.1, a.0)

  last_untrusted-append :
      (front : List Address) (x : Address) (back : List Address)
      → is_trusted unmap contains trusted_proxies x ≡ false
      → All Trusted back
      → last_untrusted unmap contains trusted_proxies (front ++ x ∷ back) ≡ some x
  unfolding last_untrusted
  last_untrusted-append [] x back u a = rw (last_untrusted-Trusted back a, u)
  last_untrusted-append (f ∷ front) x back u a = rw (last_untrusted-append front x back u a)

  from_chain-append :
      (peer : Address) (front : List Address) (x : Address) (back : List Address)
      → is_trusted unmap contains trusted_proxies x ≡ false
      → All Trusted back
      → from_chain unmap contains trusted_proxies peer (front ++ x ∷ back) ≡ x
  unfolding from_chain
  from_chain-append peer [] x back u a = rw (from_chain, last_untrusted-append [] x back u a)
  from_chain-append peer (f ∷ front) x back u a =
      rw (from_chain, last_untrusted-append (f ∷ front) x back u a)

module _ {Address : Type 0} (unmap : Address → Address) (parse_addr : Text → Option Address) where
  parse_parts-append :
      (parts more : List Text) {back : List Address}
      → parse_parts unmap parse_addr more ≡ some back
      → parse_parts unmap parse_addr (parts ++ more) ≡ (elim (parse_parts unmap parse_addr parts) [
        | none ↦ none
        | some front ↦ some (front ++ back)
      ])
  unfolding parse_parts
  parse_parts-append [] more {back = back} e = e
  parse_parts-append (p ∷ parts) more {back = back} e =
      let ih = parse_parts-append parts more e in
      elim (Option-cases (parse_unmapped unmap parse_addr (trim_space p))) [
        | inl unread ↦ rw (parse_parts, unread)
        | inr (a, read) ↦ elim (Option-cases (parse_parts unmap parse_addr parts)) [
          | inl bad ↦ rw (parse_parts, read, ih, bad)
          | inr (front, good) ↦ rw (parse_parts, read, ih, good)
        ]
      ]

module _ {Address Prefix : Type 0} (parse_addr : Text → Option Address) (unmap : Address → Address)
    (contains : Prefix → Address → Bool) (split_host_port : Text → Option Text)
    (trusted_proxies : List Prefix) (remote_addr : Text) {peer : Address}
    (connected : parse_remote_address unmap parse_addr split_host_port remote_addr
      ≡ some peer) where
  -- Behind a trusted proxy, where the forwarded addresses all parse, the request is attributed to
  -- the last one that is not a trusted proxy: what a client writes in front of it changes nothing.
  resolve_forwarded :
      (header : Text) (headers : List Text) (front : List Address) (client : Address)
      (back : List Address)
      → is_trusted unmap contains trusted_proxies peer ≡ true
      → parse_forwarded_chain unmap parse_addr (join_comma (header ∷ headers))
        ≡ some (front ++ client ∷ back)
      → is_trusted unmap contains trusted_proxies client ≡ false
      → All (Trusted unmap contains trusted_proxies) back
      → resolve parse_addr unmap contains split_host_port trusted_proxies remote_addr
          (header ∷ headers)
        ≡ some client
  unfolding resolve from_forwarded
  resolve_forwarded header headers front client back proxied parsed untrusted trusted =
      rw (resolve, from_forwarded, connected, proxied, parsed)
        (ap some (
          from_chain-append unmap contains trusted_proxies peer front client back untrusted
            trusted))

  -- Behind a trusted proxy that ends the X-Forwarded-For headers by the client's address and those
  -- of further trusted proxies, whatever text stands in front of them is without effect on the
  -- client's address: the request is attributed to the client, or, exactly where that text does not
  -- parse, to the proxy that connects; never to an address that the text names.
  pub resolve_appended :
      (header : Text) (headers : List Text) (written appended : Text) (client : Address)
      (back : List Address)
      → is_trusted unmap contains trusted_proxies peer ≡ true
      → join_comma (header ∷ headers) ≡ written ++ b',' ∷ appended
      → parse_forwarded_chain unmap parse_addr appended ≡ some (client ∷ back)
      → is_trusted unmap contains trusted_proxies client ≡ false
      → All (Trusted unmap contains trusted_proxies) back
      → resolve parse_addr unmap contains split_host_port trusted_proxies remote_addr
          (header ∷ headers)
        ≡ (elim (parse_forwarded_chain unmap parse_addr written) [
          | none ↦ some peer
          | some front ↦ some client
        ])
  unfolding resolve from_forwarded parse_forwarded_chain
  resolve_appended header headers written appended client back proxied joined parsed untrusted
        trusted =
      let parts =
        parse_parts-append unmap parse_addr (split b',' written) (split b',' appended) parsed in
      let chain =
        ap (parse_forwarded_chain unmap parse_addr) joined
        ∙ ap (parse_parts unmap parse_addr) (split-append b',' written appended)
        ∙ parts in
      elim (Option-cases (parse_parts unmap parse_addr (split b',' written))) [
        | inl bad ↦
            let fails : parse_forwarded_chain unmap parse_addr (join_comma (header ∷ headers))
                ≡ none =
              chain ∙ rw bad in
            rw (resolve, from_forwarded, connected, proxied, fails, bad)
        | inr (front, good) ↦
            resolve_forwarded header headers front client back proxied (chain ∙ rw good) untrusted
              trusted
            ∙ rw good
      ]
