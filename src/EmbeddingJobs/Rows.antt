-- ===== src/EmbeddingJobs/Rows.antt =====
-- src/db/embeddings.rs: the rows of a table by their ids, and the row that a claim chooses.
use centaur_context.Common.{
  both_false, ℕ, ◌==◌, ◌≡◌, ◌⊎◌, inl, inr, refl, sym, ◌∙◌, ap, Bool, true, false, List, [], ◌∷◌,
  map, Option, none, some, find, find-here, find-past, has, Distinct, same_number, same_number_comm,
  ==→eq, ==-refl, Bool-cases, if◌then◌else◌,
}
use centaur_context.EmbeddingJobs.{
  Embedding, Demand, is_claimable, comes_first, earlier, first_claimable,
}

abbrev pub ids : List Embedding → List ℕ
ids table = map (λ e. e.id) table

abbrev pub row_at : ℕ → List Embedding → Option Embedding
row_at id table = find (λ e. e.id == id) table

earlier_cases :
    (e : Embedding) (o : Option Embedding) → (earlier e o ≡ e) ⊎ (o ≡ some (earlier e o))
earlier_cases e none = inl refl
earlier_cases e (some b) = pick (comes_first e b)
  where
    pick : (c : Bool) → ((if c then e else b) ≡ e) ⊎ (some b ≡ some (if c then e else b))
    pick true = inl refl
    pick false = inr refl

no_row :
    (id : ℕ) (table : List Embedding) (e : Embedding)
    → has same_number id (ids table) ≡ false
    → row_at id table ≡ some e
    → ⊥
no_row id [] e h k = cc
no_row id (d ∷ ds) e h k =
    let (here, past) = both_false (same_number id d.id) (has same_number id (ids ds)) h in
    let other : (d.id == id) ≡ false = same_number_comm d.id id ∙ here in
    no_row id ds e past (sym (find-past (λ q. q.id == id) d ds other) ∙ k)

-- The rows behind a row of another id.
row_at-past :
    (e : Embedding) (es : List Embedding) (c : Embedding)
    → has same_number e.id (ids es) ≡ false
    → row_at c.id es ≡ some c
    → row_at c.id (e ∷ es) ≡ some c
row_at-past e es c alone k = elim (Bool-cases (e.id == c.id)) [
  | inl same ↦
      let here : row_at e.id es ≡ some c = rw (==→eq e.id c.id same) k in
      absurd (no_row e.id es c alone here)
  | inr other ↦ find-past (λ q. q.id == c.id) e es other ∙ k
]

-- The chosen row is the row of its id, and claimable.
pub chosen_lem :
    (d : Demand) (table : List Embedding) (c : Embedding)
    → Distinct same_number (ids table)
    → first_claimable d table ≡ some c
    → (row_at c.id table ≡ some c) × (is_claimable d c ≡ true)
unfolding first_claimable
chosen_lem d [] c keyed h = cc
chosen_lem d (e ∷ es) c (alone, keyed) h = elim (Bool-cases (is_claimable d e)) [
  | inl good ↦
      let same : earlier e (first_claimable d es) ≡ c = (let k = rw (good) at h in cc) in
      elim (earlier_cases e (first_claimable d es)) [
        | inl own ↦
            let e_is_c : e ≡ c = sym own ∙ same in
            rw (← e_is_c) (find-here (λ q. q.id == e.id) e es (==-refl e.id), good)
        | inr later ↦
            let r = chosen_lem d es c keyed (later ∙ ap (λ q. some q) same) in
            (row_at-past e es c alone r.0, r.1)
      ]
  | inr bad ↦ let r = chosen_lem d es c keyed (rw (bad) at h) in (row_at-past e es c alone r.0, r.1)
]

-- A change of the rows that leaves the ids.
pub ids-map :
    (f : Embedding → Embedding) (table : List Embedding)
    → ((e : Embedding) → (f e).id ≡ e.id)
    → ids (map f table) ≡ ids table
ids-map f [] h = refl
ids-map f (e ∷ es) h = rw (h e, ids-map f es h) refl

pub row_at-map :
    (f : Embedding → Embedding) (id : ℕ) (table : List Embedding) (e : Embedding)
    → ((e : Embedding) → (f e).id ≡ e.id)
    → row_at id table ≡ some e
    → row_at id (map f table) ≡ some (f e)
row_at-map f id [] e h k = cc
row_at-map f id (d ∷ ds) e h k = elim (Bool-cases (d.id == id)) [
  | inl here ↦
      let d_is_e : some d ≡ some e = sym (find-here (λ q. q.id == id) d ds here) ∙ k in
      let there : ((f d).id == id) ≡ true = ap (λ n. n == id) (h d) ∙ here in
      find-here (λ q. q.id == id) (f d) (map f ds) there ∙ ap (λ q. some (f q)) cc
  | inr other ↦
      let there : ((f d).id == id) ≡ false = ap (λ n. n == id) (h d) ∙ other in
      let back : row_at id ds ≡ some e = sym (find-past (λ q. q.id == id) d ds other) ∙ k in
      find-past (λ q. q.id == id) (f d) (map f ds) there ∙ row_at-map f id ds e h back
]

pub row_at-id :
    (id : ℕ) (table : List Embedding) (e : Embedding) → row_at id table ≡ some e → e.id ≡ id
row_at-id id [] e k = cc
row_at-id id (d ∷ ds) e k = elim (Bool-cases (d.id == id)) [
  | inl here ↦
      let same : some d ≡ some e = sym (find-here (λ q. q.id == id) d ds here) ∙ k in
      let d_id = ==→eq d.id id here in cc
  | inr other ↦ row_at-id id ds e (sym (find-past (λ q. q.id == id) d ds other) ∙ k)
]
