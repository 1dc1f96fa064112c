-- ===== src/Search/Loops.antt =====
-- src/search.rs: what the loops of the packing leave.
use centaur_context.Common.{
  append_nil, ℕ, zero, suc, ◌-◌, ◌≡◌, ◌⊎◌, inl, inr, refl, sym, ap, ◌∙◌, Bool, true, false, List,
  [], ◌∷◌, ◌++◌, Option, some, length, take, Bool-cases, Option-cases,
}
use centaur_context.Text.{Text}
use centaur_context.Search.{
  RetrievedObject, ContextPacket, Contents, Packing, going, returned, without_last, push, within,
  fit, fill, contents, then_general, nothing,
}

-- A candidate with the first of its connections.
abbrev pub IsTrimmed : RetrievedObject → RetrievedObject → Type 0
IsTrimmed candidate o =
    (n : ℕ) × (o ≡ record candidate { connections = take n candidate.connections })

-- The first candidates, in their order, each trimmed.
abbrev pub IsPrefix : List RetrievedObject → List RetrievedObject → Type 0
IsPrefix candidates [] = Unit
IsPrefix [] (o ∷ os) = ⊥
IsPrefix (candidate ∷ candidates) (o ∷ os) = IsTrimmed candidate o × IsPrefix candidates os

take-take : {A : Type 0} (m n : ℕ) (xs : List A) → (k : ℕ) × (take m (take n xs) ≡ take k xs)
take-take zero n xs = (zero, refl)
take-take (suc m) zero xs = (zero, refl)
take-take (suc m) (suc n) [] = (zero, refl)
take-take (suc m) (suc n) (x ∷ xs) =
    let (k, same) = take-take m n xs in (suc k, ap (λ ys. x ∷ ys) same)

take_all : {A : Type 0} (xs : List A) → take (length xs) xs ≡ xs
take_all [] = refl
take_all (x ∷ xs) = ap (λ ys. x ∷ ys) (take_all xs)

whole-IsTrimmed : (o : RetrievedObject) → IsTrimmed o o
whole-IsTrimmed o = (length o.connections, rw (take_all o.connections) refl)

shorter-IsTrimmed : (o q : RetrievedObject) → IsTrimmed (without_last o) q → IsTrimmed o q
shorter-IsTrimmed o q (n, same) =
    let (k, joined) = take-take n (length o.connections - 1) o.connections in
    (k, rw (same, joined) refl)

append_one : {A : Type 0} (x : A) (xs ys : List A) → (xs ++ (x ∷ [])) ++ ys ≡ xs ++ (x ∷ ys)
append_one x [] ys = refl
append_one x (z ∷ xs) ys = ap (λ zs. z ∷ zs) (append_one x xs ys)

-- The lists after some objects were pushed.
abbrev added : Bool → List RetrievedObject → Contents → Contents
added true os lists = record lists { general = lists.general ++ os }
added false os lists = record lists { relevant = lists.relevant ++ os }

added_none : (general : Bool) (lists : Contents) → added general [] lists ≡ lists
added_none true lists = rw (append_nil lists.general) refl
added_none false lists = rw (append_nil lists.relevant) refl

added-push :
    (general : Bool) (o : RetrievedObject) (os : List RetrievedObject) (lists : Contents)
    → added general os (push general o lists) ≡ added general (o ∷ os) lists
added-push true o os lists = rw (append_one o lists.general os) refl
added-push false o os lists = rw (append_one o lists.relevant os) refl

module _ (chars : ContextPacket → ℕ) (query retrieval : Text)
    (max total_relevant total_general total_connections : ℕ) where
  abbrev small : Contents → Bool
  small lists =
      within chars query retrieval max total_relevant total_general total_connections lists

  abbrev fitted : Bool → ℕ → RetrievedObject → Contents → Option Contents
  fitted general n o lists =
      fit chars query retrieval max total_relevant total_general total_connections general n o lists

  abbrev filled : Bool → List RetrievedObject → Contents → Packing
  filled general os lists =
      fill chars query retrieval max total_relevant total_general total_connections general os lists

  -- What the inner loop adds is a trimmed candidate, within the budget.
  fit_lem :
      (general : Bool) (n : ℕ) (candidate : RetrievedObject) (lists lists' : Contents)
      → fitted general n candidate lists ≡ some lists'
      → (o : RetrievedObject) × IsTrimmed candidate o
        × (push general o lists ≡ lists')
        × (small lists' ≡ true)
  unfolding fit
  fit_lem general zero candidate lists lists' h =
      elim (Bool-cases (small (push general candidate lists))) [
        | inl fits ↦
            let same : push general candidate lists ≡ lists' = (let k = rw (fits) at h in cc) in
            (candidate, whole-IsTrimmed candidate, same, rw (← same) fits)
        | inr long ↦ let k = rw (long) at h in cc
      ]
  fit_lem general (suc n) candidate lists lists' h =
      elim (Bool-cases (small (push general candidate lists))) [
        | inl fits ↦
            let same : push general candidate lists ≡ lists' = (let k = rw (fits) at h in cc) in
            (candidate, whole-IsTrimmed candidate, same, rw (← same) fits)
        | inr long ↦
            let (o, trimmed, pushed, fits) =
              fit_lem general n (without_last candidate) lists lists' (rw (long) at h) in
            (o, shorter-IsTrimmed candidate o trimmed, pushed, fits)
      ]

  -- What the loop over a group leaves: a prefix of the group, within the budget if it has added to
  -- the lists; the whole group if it has not returned.
  pub record IsFilled (general : Bool) (candidates : List RetrievedObject) (lists : Contents)
      (packing : Packing) : Type 0 where
    pub added_objects : List RetrievedObject
    pub prefix : IsPrefix candidates added_objects
    pub left : contents packing ≡ added general added_objects lists
    pub sized : (contents packing ≡ lists) ⊎ (small (contents packing) ≡ true)
    pub whole : (packing ≡ returned (contents packing)) ⊎ (length added_objects ≡ length candidates)

  longer :
      (general : Bool) (candidate o : RetrievedObject) (candidates : List RetrievedObject)
      (lists lists' : Contents) (packing : Packing)
      → IsTrimmed candidate o
      → push general o lists ≡ lists'
      → small lists' ≡ true
      → IsFilled general candidates lists' packing
      → IsFilled general (candidate ∷ candidates) lists packing
  longer general candidate o candidates lists lists' packing trimmed pushed fits rest = record {
    added_objects = o ∷ rest.added_objects;
    prefix = (trimmed, rest.prefix);
    left =
        rest.left
        ∙ ap (λ c. added general rest.added_objects c) (sym pushed)
        ∙ added-push general o rest.added_objects lists;
    sized = inr (sized rest.sized);
    whole = whole rest.whole;
  }
    where
      sized :
          (contents packing ≡ lists') ⊎ (small (contents packing) ≡ true)
          → small (contents packing) ≡ true
      sized (inl same) = rw (same) fits
      sized (inr k) = k

      whole :
          (packing ≡ returned (contents packing)) ⊎ (length rest.added_objects ≡ length candidates)
          → (packing ≡ returned (contents packing))
            ⊎ (length (o ∷ rest.added_objects) ≡ length (candidate ∷ candidates))
      whole (inl over) = inl over
      whole (inr all_in) = inr (ap (λ n. suc n) all_in)

  pub fill-IsFilled :
      (general : Bool) (candidates : List RetrievedObject) (lists : Contents)
      → IsFilled general candidates lists (filled general candidates lists)
  unfolding fill
  fill-IsFilled general [] lists = record {
    added_objects = [];
    prefix = tt;
    left = sym (added_none general lists);
    sized = inl refl;
    whole = inr refl;
  }
  fill-IsFilled general (candidate ∷ candidates) lists =
      elim (Option-cases (fitted general (length candidate.connections) candidate lists)) [
        | inl none_fits ↦ rw (none_fits) record {
          added_objects = [];
          prefix = tt;
          left = sym (added_none general lists);
          sized = inl refl;
          whole = inl refl;
        }
        | inr (lists', some_fits) ↦
            let (o, trimmed, pushed, fits) =
              fit_lem general (length candidate.connections) candidate lists lists' some_fits in
            rw (some_fits) (
              longer general candidate o candidates lists lists' _ trimmed pushed fits
                (fill-IsFilled general candidates lists'))
      ]

  -- What both loops leave.
  pub record IsPacked (relevant general : List RetrievedObject) (lists : Contents) : Type 0 where
    pub relevant_prefix : IsPrefix relevant lists.relevant
    pub general_prefix : IsPrefix general lists.general
    pub relevant_first : (lists.general ≡ []) ⊎ (length lists.relevant ≡ length relevant)
    pub sized : (lists ≡ nothing) ⊎ (small lists ≡ true)

  pub both-IsPacked :
      (relevant general : List RetrievedObject) (first : Packing)
      → IsFilled false relevant nothing first
      → IsPacked relevant general (
          contents (
            then_general chars query retrieval max total_relevant total_general total_connections
              general first))
  both-IsPacked relevant general (returned lists) f = record {
    relevant_prefix = rw (f.left) f.prefix;
    general_prefix = rw (f.left) tt;
    relevant_first = inl (rw (f.left) refl);
    sized = f.sized;
  }
  both-IsPacked relevant general (going lists) f =
      second (fill-IsFilled true general lists) (count f.whole)
    where
      count :
          (going lists ≡ returned lists) ⊎ (length f.added_objects ≡ length relevant)
          → length lists.relevant ≡ length relevant
      count (inl over) = cc
      count (inr all_in) = rw (f.left) all_in

      begun : IsPrefix relevant lists.relevant × (lists.general ≡ [])
      begun = (rw (f.left) f.prefix, rw (f.left) refl)

      second :
          IsFilled true general lists (filled true general lists)
          → length lists.relevant ≡ length relevant
          → IsPacked relevant general (contents (filled true general lists))
      second g all_in = record {
        relevant_prefix = rw (g.left) begun.0;
        general_prefix = rw (g.left, begun.1) g.prefix;
        relevant_first = inr (rw (g.left) all_in);
        sized = sized g.sized;
      }
        where
          sized :
              (contents (filled true general lists) ≡ lists)
                ⊎ (small (contents (filled true general lists)) ≡ true)
              → (contents (filled true general lists) ≡ nothing)
                ⊎ (small (contents (filled true general lists)) ≡ true)
          sized (inl same) = rw (same) f.sized
          sized (inr k) = inr k
