-- ===== src/Controller/Auth/Tokens/Revocation.antt =====
-- A revoked token is not accepted again.
use bmt_ai_os.Prelude.{
  ℕ, ◌≤◌, ◌<◌, ◌≡◌, ◌⊎◌, refl, sym, ap, ◌∙◌, inl, inr, String, true, false, Bool-cases, some, List,
  [], ◌∷◌, All, ltb, str_eq, str_eq_refl, Result, ok, err, Result-cases, arith,
}
use bmt_ai_os.Prelude.Dict
use bmt_ai_os.Prelude.Dict.{Dict, get-put, contains-keys}
use bmt_ai_os.Controller.Auth.Users.{seconds}
use bmt_ai_os.Controller.Auth.Tokens.{
  Payload, TokenError, Revoked, insert_revoked, prune_revoked_tokens, is_token_revoked, jti_of,
  verify_token, revoke_token, Change, revocation, purge, lookup_of, change_all,
}

-- The table refuses the `jti` at least until a time.
pub Holds : ℕ → String → Dict Revoked → Type 0
Holds until jti rows = (r : Revoked) × (Dict.get rows jti ≡ some r) × (until ≤ r.expires_at)

-- A change at a time no later than `last`, which does not shorten the revocation of the `jti`.
abbrev pub Spares : ℕ → ℕ → String → Change → Type 0
Spares last until jti (revocation now j expires_at) = (str_eq j jti ≡ false) ⊎ (until ≤ expires_at)
Spares last until jti (purge now) = now ≤ last
Spares last until jti (lookup_of now j) = now ≤ last

Holds-prune :
    (now until : ℕ) (jti : String) (rows : Dict Revoked)
    → now ≤ until
    → Holds until jti rows
    → Holds until jti (prune_revoked_tokens now rows)
unfolding Holds prune_revoked_tokens Dict.get
Holds-prune now until jti [] le h = h
Holds-prune now until jti ((j, w) ∷ rows) le (r, e, k) = elim (Bool-cases (str_eq j jti)) [
  | inl same ↦
      let is_r : w ≡ r = ground (arith, e, same) in
      let kept : ltb w.expires_at now ≡ false = rw is_r (ground arith) in
      (r, rw kept (rw same (ap some is_r)), k)
  | inr other ↦
      let (r', e', k') = Holds-prune now until jti rows le (r, rw other at e, k) in
      elim (Bool-cases (ltb w.expires_at now)) [
        | inl gone ↦ (r', rw gone e', k')
        | inr kept ↦ (r', rw kept (rw other e'), k')
      ]
]

Holds-insert :
    (now until expires_at : ℕ) (j jti : String) (rows : Dict Revoked)
    → (str_eq j jti ≡ false) ⊎ (until ≤ expires_at)
    → (str_eq j jti ≡ true) ⊎ Holds until jti rows
    → Holds until jti (insert_revoked now j expires_at rows)
unfolding Holds insert_revoked
Holds-insert now until expires_at j jti rows s h =
    let row : Revoked = record { revoked_at = now; expires_at = expires_at } in
    let g = get-put rows j jti row in
    elim (Bool-cases (str_eq j jti)) [
      | inl same ↦ (row, g ∙ rw same refl, ground (arith, same))
      | inr other ↦ elim h [ inl same ↦ absurd (cc) | inr (r, e, k) ↦ (r, g ∙ rw other e, k) ]
    ]

Holds-change_all :
    (last until : ℕ) (jti : String) (cs : List Change) (rows : Dict Revoked)
    → last ≤ until
    → All (Spares last until jti) cs
    → Holds until jti rows
    → Holds until jti (change_all cs rows)
unfolding change_all is_token_revoked
Holds-change_all last until jti [] rows le h k = k
Holds-change_all last until jti (revocation now j e ∷ cs) rows le h k =
    Holds-change_all last until jti cs (insert_revoked now j e rows) le h.1
      (Holds-insert now until e j jti rows h.0 (inr k))
Holds-change_all last until jti (purge now ∷ cs) rows le h k =
    Holds-change_all last until jti cs (prune_revoked_tokens now rows) le h.1
      (Holds-prune now until jti rows (omega (arith, h.0)) k)
Holds-change_all last until jti (lookup_of now j ∷ cs) rows le h k =
    Holds-change_all last until jti cs (prune_revoked_tokens now rows) le h.1
      (Holds-prune now until jti rows (omega (arith, h.0)) k)

Holds-revoked :
    (now until : ℕ) (jti : String) (rows : Dict Revoked)
    → now ≤ until
    → Holds until jti rows
    → (is_token_revoked now jti rows).1 ≡ true
unfolding is_token_revoked Holds
Holds-revoked now until jti rows le h =
    let (r, e, k) = Holds-prune now until jti rows le h in
    ground (arith, contains-keys (prune_revoked_tokens now rows) jti, e)

module _ (decode : ℕ → String → Result TokenError Payload)
    (decode_any : String → Result TokenError Payload) where
  -- What PyJWT documents of the two ways to decode: a token that is accepted has not expired, and with
  -- the expiry unchecked it has the same claims.
  pub record IsJwt : Type 0 where
    pub unexpired :
        (now e : ℕ) (token : String) (p : Payload)
        → decode now token ≡ ok p
        → p.exp ≡ some e
        → now < seconds e
    pub agrees :
        (now : ℕ) (token : String) (p : Payload) → decode now token ≡ ok p → decode_any token ≡ ok p

  revoke_token-Holds :
      (read now e : ℕ) (token jti : String) (p : Payload) (rows rows' : Dict Revoked)
      → decode_any token ≡ ok p
      → jti_of p ≡ some jti
      → p.exp ≡ some e
      → revoke_token decode_any read now token rows ≡ ok rows'
      → Holds (seconds e) jti rows'
  unfolding revoke_token Holds insert_revoked
  revoke_token-Holds read now e token jti p rows rows' d j x h =
      let row : Revoked = record { revoked_at = now; expires_at = seconds e } in
      let same : Dict.put rows jti row ≡ rows' = ground (arith, d, j, x, h) in
      (row, rw (sym same) (get-put rows jti jti row ∙ rw (str_eq_refl jti) refl), omega arith)

  -- Once a token with a `jti` and an expiry has been revoked it is refused, whatever happened to the table
  -- before: changes up to the time of the decoding, which do not shorten the revocation. The store must
  -- not read the clock past the expiry where the decoder read it before.
  pub revoked-refused :
      (read now decoded pruned e : ℕ) (token jti : String) (p : Payload) (rows rows' : Dict Revoked)
      (cs : List Change)
      → IsJwt
      → decode_any token ≡ ok p
      → jti_of p ≡ some jti
      → p.exp ≡ some e
      → revoke_token decode_any read now token rows ≡ ok rows'
      → All (Spares decoded (seconds e) jti) cs
      → (pruned ≤ seconds e) ⊎ (seconds e ≤ decoded)
      → (x : TokenError) × ((verify_token decode decoded pruned token (change_all cs rows')).1
          ≡ err x)
  unfolding verify_token
  revoked-refused read now decoded pruned e token jti p rows rows' cs w d j x h spared clock =
      elim (Result-cases (decode decoded token)) [
        | inr (y, f) ↦ (y, rw (verify_token, f) refl)
        | inl (q, f) ↦
            let same : q ≡ p = ground (arith, w.agrees decoded token q f, d) in
            let live : decoded < seconds e = w.unexpired decoded e token p (rw (sym same) f) x in
            let held =
              Holds-change_all decoded (seconds e) jti cs rows' (omega arith) spared
                (revoke_token-Holds read now e token jti p rows rows' d j x h) in
            let late : pruned ≤ seconds e = omega arith in
            let hit = Holds-revoked pruned (seconds e) jti (change_all cs rows') late held in
            (TokenError.revoked, rw (verify_token, f, same, j, hit) refl)
      ]
