-- ===== src/Artifacts/Windows.antt =====
-- src/db/artifacts.rs: windows that are read one after another.
use centaur_context.Common.{
  ℕ, zero, suc, ◌+◌, ◌-◌, ◌<◌, ◌≤◌, ◌≡◌, refl, sym, ◌∙◌, ap, true, false, ◌++◌, none, some, ltb,
  min, length, length-take, length-drop, take, drop, take-drop_taken, append_nil, drop_all,
  drop-add, ltb→lt, ltb→le, arith, Bool-cases, inl, inr, Result, ok, err, ◌>>=◌, ◌>>◌,
}
use centaur_context.Errors.{DbError, not_found}
use centaur_context.Text.{Text}
use centaur_context.Artifacts.{Artifact, artifact_window}

module _ (print : ℕ → Text) (artifact : Artifact) (limit : ℕ) where
  -- A reader of at most `fuel` windows, from an offset on.
  unfoldable pub reads : ℕ → ℕ → Result DbError Text
  reads zero offset = err not_found
  reads (suc fuel) offset = artifact_window print artifact offset limit >>= λ w.
      elim w.next_offset [
        | none ↦ ok w.text
        | some next ↦ reads fuel next >>= λ rest. ok (w.text ++ rest)
      ]

  module _ (body : Text) (filled : artifact.content ≡ some body) where
    abbrev piece : ℕ → Text
    piece offset = take limit (drop offset body)

    abbrev after : ℕ → ℕ
    after offset = offset + length (piece offset)

    last_window :
        (fuel offset : ℕ)
        → ltb (length body) offset ≡ false
        → ltb (after offset) (length body) ≡ false
        → reads (suc fuel) offset ≡ ok (piece offset)
    unfolding reads artifact_window ◌>>=◌ ◌>>◌
    last_window fuel offset inside ends = rw (filled, inside, ends) refl

    next_window :
        (fuel offset : ℕ) (rest : Text)
        → ltb (length body) offset ≡ false
        → ltb (after offset) (length body) ≡ true
        → reads fuel (after offset) ≡ ok rest
        → reads (suc fuel) offset ≡ ok (piece offset ++ rest)
    unfolding reads artifact_window ◌>>=◌ ◌>>◌
    next_window fuel offset rest inside more h = rw (filled, inside, more, h) refl

    joined : (offset : ℕ) → piece offset ++ drop (after offset) body ≡ drop offset body
    joined offset =
        rw (drop-add offset (length (piece offset)) body) (take-drop_taken limit (drop offset body))

    last_piece : (offset : ℕ) → length body ≤ after offset → piece offset ≡ drop offset body
    last_piece offset h =
        sym (append_nil (piece offset))
        ∙ ap (λ ys. piece offset ++ ys) (sym (drop_all (after offset) body h))
        ∙ joined offset

    length-piece : (offset : ℕ) → length (piece offset) ≡ min limit (length body - offset)
    length-piece offset = rw (← length-drop offset body) (length-take limit (drop offset body))

    reads_from :
        0 < limit
        → (fuel offset : ℕ) → offset ≤ length body
        → length body - offset < fuel
        → reads fuel offset ≡ ok (drop offset body)
    reads_from wide zero offset inside enough = absurd (never enough)
      where
        never : {k : ℕ} → k < 0 → ⊥
        never p = omega arith
    reads_from wide (suc fuel) offset inside enough =
        let long = length-piece offset in
        elim (Bool-cases (ltb (after offset) (length body))) [
          | inl more ↦
              let (small, enough') = onward _ long (ltb→lt _ _ more) in
              next_window fuel offset (drop (after offset) body) (not_past inside) more
                (reads_from wide fuel (after offset) small enough')
              ∙ ap (λ t. ok t) (joined offset)
          | inr ends ↦
              last_window fuel offset (not_past inside) ends
              ∙ ap (λ t. ok t) (last_piece offset (ltb→le _ _ ends))
        ]
      where
        not_past : {m n : ℕ} → m ≤ n → ltb n m ≡ false
        not_past p = ground arith

        onward :
            (k : ℕ)
            → k ≡ min limit (length body - offset)
            → offset + k < length body
            → (offset + k ≤ length body) × (length body - (offset + k) < fuel)
        onward k e h = (omega (arith, h), omega (arith, e, h, wide, enough))

  -- Windows that are read one after another, from the start and each from where the last one says,
  -- come to the whole text, if the limit is positive; and there are at most as many as characters,
  -- and one more.
  pub reads_lem :
      (body : Text)
      → artifact.content ≡ some body
      → 0 < limit
      → reads (suc (length body)) 0 ≡ ok body
  reads_lem body filled wide =
      reads_from body filled wide (suc (length body)) 0 (omega arith) (omega arith)
