-- ===== src/Connections/Sound.antt =====
-- src/db/connections.rs: what every write keeps of the tables.
use mathlib.Core.List.{Memᴰ}
use mathlib.Core.List.Memᴰ
use centaur_context.Common.{
  ℕ, ◌+◌, ◌==◌, ◌≡◌, ◌⊎◌, refl, sym, ◌∙◌, subst, Bool, true, List, [], ◌∷◌, Option, none, some,
  find, find-here, find-past, Bool-cases, inl, inr, All, All-of, All-at, both_false, ==-refl,
}
use centaur_context.Connections.{is_active, put_connection}
use centaur_context.Connections.Tables.{Connection, Event, ConnectionState}
use centaur_context.Connections.Triples.{clash, IsKeyed, found_conflict}
use centaur_context.Connections.Effects.{IsThemed, Effect, same, added, replaced}

abbrev NextOf : Option ℕ → ℕ → Type 0
NextOf none to = to ≡ 1
NextOf (some from) to = to ≡ from + 1

-- An event takes a connection from one revision to the next, or to the first.
abbrev pub IsNext : Event → Type 0
IsNext e = NextOf e.from_revision e.to_revision

pub record IsSound (s : ConnectionState) : Type 0 where
  pub keyed : IsKeyed s.connections
  pub themed : All (IsThemed s.objects) s.connections
  pub events : All IsNext s.events

-- A connection that is archived is there afterwards, as it was.
abbrev pub Freezes : ConnectionState → ConnectionState → Type 0
Freezes s s' = All (λ c. (is_active c ≡ true) ⊎ Memᴰ c s'.connections) s.connections

pub Freezes-refl : (s : ConnectionState) → Freezes s s
Freezes-refl s = All-of _ s.connections (λ c m. inr m)

pub Freezes-trans : (s t v : ConnectionState) → Freezes s t → Freezes t v → Freezes s v
Freezes-trans s t v first second = All-of _ s.connections (λ c m.
    elim (All-at _ s.connections first c m) [
      | inl active ↦ inl active
      | inr kept ↦ All-at _ t.connections second c kept
    ])

put-All :
    (P : Connection → Type 0) (c : Connection) (cs : List Connection)
    → P c
    → All P cs
    → All P (put_connection c cs)
put-All P c [] p h = tt
put-All P c (d ∷ ds) p (q, h) = elim (Bool-cases (d.id == c.id)) [
  | inl here ↦ rw (here) (p, h)
  | inr past ↦ rw (past) (q, put-All P c ds p h)
]

-- In a table of distinct ids, a connection that is found is the first of its id.
first_of_id :
    (p : Connection → Bool) (c : Connection) (cs : List Connection)
    → IsKeyed cs
    → find p cs ≡ some c
    → find (λ d. d.id == c.id) cs ≡ some c
first_of_id p c [] keyed h = cc
first_of_id p c (d ∷ ds) (alone, keyed) h = elim (Bool-cases (p d)) [
  | inl found ↦
      let here : d ≡ c = (let q = find-here p d ds found in cc) in
      find-here (λ e. e.id == c.id) d ds (rw (here) (==-refl c.id)) ∙ rw (here) refl
  | inr past ↦
      let later = sym (find-past p d ds past) ∙ h in
      let apart = (both_false _ (clash d c) (found_conflict p d c ds later alone)).0 in
      find-past (λ e. e.id == c.id) d ds apart ∙ first_of_id p c ds keyed later
]

-- Only the row that is replaced goes.
put-keeps :
    (current c d : Connection) (cs : List Connection)
    → find (λ e. e.id == c.id) cs ≡ some current
    → is_active current ≡ true
    → Memᴰ d cs
    → (is_active d ≡ true) ⊎ Memᴰ d (put_connection c cs)
put-keeps current c d [] h active m = absurd (Memᴰ.not-nil m)
put-keeps current c d (e ∷ es) h active m = elim (Bool-cases (e.id == c.id)) [
  | inl here ↦
      let gone : e ≡ current = (let q = find-here (λ f. f.id == c.id) e es here in cc) in
      elim (Memᴰ.cases_cons m) [
        | inl first ↦ inl (rw (first, gone) active)
        | inr later ↦ inr (rw (here) (Memᴰ.tail later))
      ]
  | inr past ↦ elim (Memᴰ.cases_cons m) [
    | inl first ↦ inr (rw (past) (Memᴰ.head first))
    | inr later ↦
        elim (put-keeps current c d es (sym (find-past (λ f. f.id == c.id) e es past) ∙ h) active
          later) [ inl is_on ↦ inl is_on | inr kept ↦ inr (rw (past) (Memᴰ.tail kept)) ]
  ]
]

-- Where the ids stay distinct, a write keeps the rest, and what is archived.
pub Effect-IsSound :
    (s s' : ConnectionState)
    → Effect s s'
    → IsKeyed s'.connections
    → IsSound s
    → IsSound s' × Freezes s s'
Effect-IsSound s s' (same e) keyed i = (
  record {
    keyed = keyed;
    themed = subst (λ t. All (IsThemed t.objects) t.connections) e i.themed;
    events = subst (λ t. All IsNext t.events) e i.events;
  },
  subst (λ t. Freezes s t) e (Freezes-refl s),
)
Effect-IsSound s s' (added c e themed from to l) keyed i = (
  record {
    keyed = keyed;
    themed =
        subst (λ cs. All (IsThemed s'.objects) cs) l.connections
          (subst (λ os. All (IsThemed os) (c ∷ s.connections)) l.objects (themed, i.themed));
    events = subst (λ es. All IsNext es) l.events (rw (from) to, i.events);
  },
  All-of _ s.connections (λ d m. inr (subst (λ cs. Memᴰ d cs) l.connections (Memᴰ.tail m))),
)
Effect-IsSound s s' (replaced p current c e found active ids themed from to l) keyed i =
    let inside = find-Mem p current s.connections found in
    let first =
      subst (λ n. find (λ d. d.id == n) s.connections ≡ some current) ids
        (first_of_id p current s.connections i.keyed found) in
    (
      record {
        keyed = keyed;
        themed =
            subst (λ cs. All (IsThemed s'.objects) cs) l.connections
              (subst (λ os. All (IsThemed os) (put_connection c s.connections)) l.objects
                (put-All (IsThemed s.objects) c s.connections
                  (themed (All-at _ s.connections i.themed current inside)) i.themed));
        events = subst (λ es. All IsNext es) l.events (rw (from) to, i.events);
      },
      All-of _ s.connections (λ d m.
          subst (λ cs. (is_active d ≡ true) ⊎ Memᴰ d cs) l.connections
            (put-keeps current c d s.connections first active m)),
    )
  where
    find-Mem :
        (p : Connection → Bool) (d : Connection) (ds : List Connection)
        → find p ds ≡ some d
        → Memᴰ d ds
    find-Mem p d [] h = cc
    find-Mem p d (e ∷ es) h = elim (Bool-cases (p e)) [
      | inl here ↦ Memᴰ.head (let q = find-here p e es here in cc)
      | inr past ↦ Memᴰ.tail (find-Mem p d es (sym (find-past p e es past) ∙ h))
    ]
