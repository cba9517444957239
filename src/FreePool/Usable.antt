-- ===== src/FreePool/Usable.antt =====
-- A key that was just given out is known.
use smart_gate.Base.Headers.{Headers}
use smart_gate.Base.{
  All, List, Option, Text, Text-discrete, [], ap, codes, if_pos, refl, some, sym, true, ℕ, ◌++◌,
  ◌∙◌, ◌∷◌, ◌≡◌, ◌≢◌,
}
use smart_gate.Context.Text.{is_whitespace, trim}
use smart_gate.Context.Trim.{IsDark, trim-IsDark}
use smart_gate.FreePool.Claim.{
  Answer, ClaimKeyResponse, KeyRow, Outside, World, claim_free_key, granted, refused,
}
use smart_gate.FreePool.Answers.{IsGranted, Tells, claim_free_key-Tells}
use smart_gate.FreePool.Check.{
  answer_of, check_free_key, check_token, find_row, usable, shown, view_of,
}

prefixed-IsDark : (t : Text) → All IsDark t → All IsDark (codes "sg-free-" ++ t)
unfolding is_whitespace
prefixed-IsDark t h = (refl, (refl, (refl, (refl, (refl, (refl, (refl, (refl, h))))))))

module _ {F : Type 0} (hash_token : Text → Text) (usage : Text → Option (ℕ × ℕ)) where
  told :
      (o : Outside F) (w : World F) (x : World F × Answer F) (r : ClaimKeyResponse F)
      → Tells hash_token o w x
      → x.1 ≡ granted r
      → IsGranted hash_token o r w x.0
  told o w (w', granted s) r t e = let same : s ≡ r = cc in rw (sym same) t
  told o w (w', refused x) r t e = absurd cc

  find_row-head :
      (row : KeyRow F) (rows : List (KeyRow F)) (h : Text)
      → row.key_hash ≡ h
      → find_row h (row ∷ rows) ≡ some row
  unfolding find_row
  find_row-head row rows h e = if_pos (Text-discrete row.key_hash h) e (some row) (find_row h rows)

  check_token-head :
      (token : Text) (row : KeyRow F) (rows : List (KeyRow F)) (w : World F)
      → token ≢ []
      → row.key_hash ≡ hash_token token
      → w.api_keys ≡ row ∷ rows
      → check_token hash_token usage true token w ≡ usable (view_of hash_token usage row)
  unfolding check_token
  check_token-head [] row rows w given e f = absurd (given refl)
  check_token-head (c ∷ t) row rows w given e f =
      ap (λ ks. answer_of hash_token usage (find_row (hash_token (c ∷ t)) ks)) f
      ∙ ap (answer_of hash_token usage) (find_row-head row rows (hash_token (c ∷ t)) e)

  view_of-shown :
      (row : KeyRow F) (r : ClaimKeyResponse F) (id : Text)
      → row.key_prefix ≡ r.key_prefix
      → row.name ≡ r.name
      → row.enabled ≡ true
      → row.limits ≡ r.quota
      → row.id ≡ id
      → view_of hash_token usage row ≡ shown hash_token usage r.key_prefix r.name true r.quota id
  view_of-shown row r id a b c d e =
      ap (λ p. shown hash_token usage p row.name row.enabled row.limits row.id) a
      ∙ (ap (λ n. shown hash_token usage r.key_prefix n row.enabled row.limits row.id) b
          ∙ (ap (λ n. shown hash_token usage r.key_prefix r.name n row.limits row.id) c
              ∙ (ap (λ q. shown hash_token usage r.key_prefix r.name true q row.id) d
                  ∙ ap (shown hash_token usage r.key_prefix r.name true r.quota) e)))

  check_granted :
      (o : Outside F) (r : ClaimKeyResponse F) (w w' : World F)
      → All IsDark o.random_key
      → IsGranted hash_token o r w w'
      → check_free_key hash_token usage true r.api_key w'
        ≡ usable (shown hash_token usage r.key_prefix r.name true r.quota o.random_id)
  unfolding check_free_key
  check_granted o r w w' dark g =
      let key = codes "sg-free-" ++ o.random_key in
      let trimmed : trim r.api_key ≡ key =
        ap trim g.key ∙ trim-IsDark key (prefixed-IsDark o.random_key dark) in
      let hash : g.row.key_hash ≡ hash_token key = g.stored.hash ∙ ap hash_token g.key in
      ap (λ t. check_token hash_token usage true t w') trimmed
      ∙ (check_token-head key g.row w.api_keys w' (λ e. absurd cc) hash g.added
          ∙ ap usable (
              view_of-shown g.row r o.random_id g.stored.prefix g.stored.name g.stored.is_enabled
                g.stored.limits g.id))

  -- A key that a claim gives out is known at once: it is enabled and has the name, the prefix and the
  -- limits that the claim told. The random part of the key has no white space.
  pub check_free_key-claim :
      (o : Outside F) (headers : Headers) (name : Option Text) (now : ℕ) (w : World F)
      (r : ClaimKeyResponse F)
      → All IsDark o.random_key
      → (claim_free_key hash_token o headers name now w).1 ≡ granted r
      → check_free_key hash_token usage true r.api_key
          (claim_free_key hash_token o headers name now w).0
        ≡ usable (shown hash_token usage r.key_prefix r.name true r.quota o.random_id)
  check_free_key-claim o headers name now w r dark e = check_granted o r w _ dark (
      told o w (claim_free_key hash_token o headers name now w) r
        (claim_free_key-Tells hash_token o headers name now w) e)
