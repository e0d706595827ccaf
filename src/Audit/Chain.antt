-- ===== src/Audit/Chain.antt =====
-- What the chain shows: logs that `record` writes verify, and changes to them are found.
use iddo_harness.Prelude.{
  ℕ, suc, ◌+◌, String, ◌≡◌, ◌≢◌, refl, sym, ap, ◌∙◌, eq_iff, some, List, [], ◌∷◌, ◌++◌, arith,
  length,
}
use iddo_harness.Audit.{
  Body, Entry, Line, entry, junk, unchained, altered, Verdict, intact, broken, Write, torn,
  not_json, verify_from, verify_chain,
}

-- The hash that the next line is chained onto, after some lines that follow `prev`.
end_of : String → List Line → String
end_of prev [] = prev
end_of prev (entry r ∷ ls) = end_of r.hmac ls
end_of prev (junk ∷ ls) = end_of "" ls

module _ (mac : String → String → String) (canonical : Body → String → String)
    (mask : String → String) where
  abbrev verify : String → ℕ → List Line → Verdict
  verify = verify_from mac canonical mask

  -- Verification of a longer log goes on where that of its beginning ends.
  verify-append :
      (prev : String) (i : ℕ) (xs ys : List Line)
      → verify prev i xs ≡ intact
      → verify prev i (xs ++ ys) ≡ verify (end_of prev xs) (i + length xs) ys
  unfolding verify_from end_of
  verify-append prev i [] ys h = ap (λ j. verify prev j ys) (omega arith)
  verify-append prev i (junk ∷ xs) ys h = cc
  verify-append prev i (entry r ∷ xs) ys h =
      let shift : i + suc (length xs) ≡ i + 1 + length xs = omega arith in
      rw shift (ground (arith, verify-append r.hmac (i + 1) xs ys))

  verify-prefix :
      (prev : String) (i : ℕ) (xs ys : List Line)
      → verify prev i (xs ++ ys) ≡ intact
      → verify prev i xs ≡ intact
  unfolding verify_from
  verify-prefix prev i [] ys h = refl
  verify-prefix prev i (junk ∷ xs) ys h = cc
  verify-prefix prev i (entry r ∷ xs) ys h = ground (arith, verify-prefix r.hmac (i + 1) xs ys)

  -- The tests that an accepted line has passed.
  verify-entry :
      (prev : String) (i : ℕ) (r : Entry) (ys : List Line)
      → verify prev i (entry r ∷ ys) ≡ intact
      → (r.prev ≡ prev)
        × (mac prev (canonical r.body r.prev) ≡ r.hmac)
        × (verify r.hmac (i + 1) ys ≡ intact)
  unfolding verify_from
  verify-entry prev i r ys h =
      ground (arith, eq_iff r.prev prev, eq_iff (mac prev (canonical r.body r.prev)) r.hmac)

  -- What follows an accepted beginning is verified from that beginning's last hash.
  verify-suffix :
      (xs ys : List Line)
      → verify "" 1 (xs ++ ys) ≡ intact
      → verify (end_of "" xs) (1 + length xs) ys ≡ intact
  verify-suffix xs ys h = sym (verify-append "" 1 xs ys (verify-prefix "" 1 xs ys h)) ∙ h

  -- What `verify_chain` says after a write onto so many lines.
  abbrev pub verdict_on : Write → ℕ → Verdict
  verdict_on torn n = broken (n + 1) not_json
  verdict_on write n = intact

  -- What `verify_chain` accepts it accepts with lines cut off at the end: the chain does not show
  -- that the newest records are missing.
  pub verify_chain-truncated :
      (xs ys : List Line)
      → verify_chain mac canonical mask (some (xs ++ ys)) ≡ intact
      → verify_chain mac canonical mask (some xs) ≡ intact
  unfolding verify_chain
  verify_chain-truncated xs ys h = verify-prefix "" 1 xs ys h

  -- In a log that verifies, a line whose content is replaced while its links stay is reported, under
  -- its number, as altered, if the hash tells the two contents apart.
  pub altered_content_found :
      (xs ys : List Line) (r : Entry) (b : Body)
      → verify_chain mac canonical mask (some (xs ++ entry r ∷ ys)) ≡ intact
      → mac r.prev (canonical b r.prev) ≢ mac r.prev (canonical r.body r.prev)
      → verify_chain mac canonical mask (some (xs ++ entry (record r { body = b }) ∷ ys))
        ≡ broken (1 + length xs) altered
  unfolding verify_chain
  altered_content_found xs ys r b h apart =
      let start = verify-prefix "" 1 xs (entry r ∷ ys) h in
      let (onto, hashed, rest) =
        verify-entry (end_of "" xs) (1 + length xs) r ys (verify-suffix xs (entry r ∷ ys) h) in
      verify-append "" 1 xs (entry (record r { body = b }) ∷ ys) start
      ∙ unfold verify_from in
        ground (
          arith,
          onto,
          hashed,
          apart,
          eq_iff r.prev (end_of "" xs),
          eq_iff (mac (end_of "" xs) (canonical b r.prev)) r.hmac,
        )

  -- In a log that verifies, leaving out a line that another follows is reported at the place of the
  -- missing line, unless its hash is the one that it was chained onto.
  pub missing_line_found :
      (xs ys : List Line) (r s : Entry)
      → verify_chain mac canonical mask (some (xs ++ entry r ∷ entry s ∷ ys)) ≡ intact
      → r.hmac ≢ r.prev
      → verify_chain mac canonical mask (some (xs ++ entry s ∷ ys))
        ≡ broken (1 + length xs) unchained
  unfolding verify_chain
  missing_line_found xs ys r s h apart =
      let start = verify-prefix "" 1 xs (entry r ∷ entry s ∷ ys) h in
      let (onto, hashed, rest) =
        verify-entry (end_of "" xs) (1 + length xs) r (entry s ∷ ys)
          (verify-suffix xs (entry r ∷ entry s ∷ ys) h) in
      let (onto_s, hashed_s, rest_s) = verify-entry r.hmac (1 + length xs + 1) s ys rest in
      verify-append "" 1 xs (entry s ∷ ys) start
      ∙ unfold verify_from in ground (arith, onto, onto_s, apart, eq_iff s.prev (end_of "" xs))
