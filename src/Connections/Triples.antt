-- ===== src/Connections/Triples.antt =====
-- src/db/connections.rs: ids, and the ends and kinds of active connections.
use centaur_context.Common.{
  both_false, ◌==◌, ◌≡◌, refl, sym, subst, ◌∙◌, Bool, false, ◌&&◌, ◌||◌, List, [], ◌∷◌, All, some,
  find, find-here, find-past, has, Distinct, Bool-cases, inl, inr, no_clash, same_number_comm,
  ==→eq, ==-refl, arith,
}
use centaur_context.Text.{text_eq}
use centaur_context.Text.Laws.{text_eq_comm}
use centaur_context.Connections.{is_active, put_connection}
use centaur_context.Connections.Tables.{Connection}

-- Two connections with one id, or active with the same ends and kind.
abbrev pub clash : Connection → Connection → Bool
clash c d =
    c.source_object_id == d.source_object_id
    && text_eq c.kind d.kind
    && c.target_object_id == d.target_object_id
    && is_active c
    && is_active d

abbrev pub conflicts : Connection → Connection → Bool
conflicts c d = c.id == d.id || clash c d

abbrev pub IsKeyed : List Connection → Type 0
IsKeyed cs = Distinct conflicts cs

-- No other connection of the list clashes with it.
abbrev pub IsClear : Connection → List Connection → Type 0
IsClear c cs = All (λ d. (d.id == c.id) ≡ false → clash c d ≡ false) cs

conflicts_comm : (c d : Connection) → conflicts c d ≡ conflicts d c
conflicts_comm c d =
    rw
      (
        same_number_comm c.id d.id,
        same_number_comm c.source_object_id d.source_object_id,
        text_eq_comm c.kind d.kind,
        same_number_comm c.target_object_id d.target_object_id,
      )
      (swap (d.id == c.id) (d.source_object_id == c.source_object_id) (text_eq d.kind c.kind)
        (d.target_object_id == c.target_object_id) (is_active c) (is_active d))
  where
    swap : (i s k t a b : Bool) → (i || (s && k && t && a && b)) ≡ (i || (s && k && t && b && a))
    swap i s k t a b = ground arith

pub either_false : {a b : Bool} → a ≡ false → b ≡ false → (a || b) ≡ false
either_false p q = ground arith

clear_conflict :
    (c d : Connection) → (d.id == c.id) ≡ false → clash c d ≡ false → conflicts c d ≡ false
clear_conflict c d other h = either_false (same_number_comm c.id d.id ∙ other) h

has-put :
    (d c : Connection) (cs : List Connection)
    → has conflicts d cs ≡ false
    → conflicts d c ≡ false
    → has conflicts d (put_connection c cs) ≡ false
has-put d c [] h k = refl
has-put d c (e ∷ es) h k =
    let (first, rest) = both_false (conflicts d e) (has conflicts d es) h in
    elim (Bool-cases (e.id == c.id)) [
      | inl here ↦ rw (here) (either_false k rest)
      | inr past ↦ rw (past) (either_false first (has-put d c es rest k))
    ]

-- A connection that replaces the one of its id conflicts with none of those behind it.
behind :
    (d c : Connection) (es : List Connection)
    → d.id ≡ c.id
    → has conflicts d es ≡ false
    → IsClear c es
    → has conflicts c es ≡ false
behind d c [] same h k = refl
behind d c (e ∷ es) same h (clear, clears) =
    let (first, rest) = both_false (conflicts d e) (has conflicts d es) h in
    let (ids, _) = both_false (d.id == e.id) (clash d e) first in
    let other : (e.id == c.id) ≡ false = rw (← same) (same_number_comm e.id d.id ∙ ids) in
    either_false (clear_conflict c e other (clear other)) (behind d c es same rest clears)

pub put-IsKeyed :
    (c : Connection) (cs : List Connection)
    → IsKeyed cs
    → IsClear c cs
    → IsKeyed (put_connection c cs)
put-IsKeyed c [] h k = tt
put-IsKeyed c (d ∷ ds) (alone, rest) (clear, clears) = elim (Bool-cases (d.id == c.id)) [
  | inl here ↦ rw (here) (behind d c ds (==→eq _ _ here) alone clears, rest)
  | inr past ↦ rw (past) (
    has-put d c ds alone (conflicts_comm d c ∙ clear_conflict c d past (clear past)),
    put-IsKeyed c ds rest clears,
  )
]

alone-IsClear : (c : Connection) (cs : List Connection) → has conflicts c cs ≡ false → IsClear c cs
alone-IsClear c [] h = tt
alone-IsClear c (d ∷ ds) h =
    let (first, rest) = both_false (conflicts c d) (has conflicts c ds) h in
    (λ other. (both_false (c.id == d.id) (clash c d) first).1, alone-IsClear c ds rest)

pub found_conflict :
    (p : Connection → Bool) (d c : Connection) (cs : List Connection)
    → find p cs ≡ some c
    → has conflicts d cs ≡ false
    → conflicts d c ≡ false
found_conflict p d c [] h k = cc
found_conflict p d c (e ∷ es) h k =
    let (first, rest) = both_false (conflicts d e) (has conflicts d es) k in
    elim (Bool-cases (p e)) [
      | inl here ↦ let same : e ≡ c = (let q = find-here p e es here in cc) in rw (← same) first
      | inr past ↦ found_conflict p d c es (sym (find-past p e es past) ∙ h) rest
    ]

-- A connection that is found is clear of the others.
pub found-IsClear :
    (p : Connection → Bool) (c : Connection) (cs : List Connection)
    → find p cs ≡ some c
    → IsKeyed cs
    → IsClear c cs
found-IsClear p c [] h k = cc
found-IsClear p c (e ∷ es) h (alone, rest) = elim (Bool-cases (p e)) [
  | inl here ↦
      let same : e ≡ c = (let q = find-here p e es here in cc) in
      subst (λ q. IsClear q (e ∷ es)) same
        ((λ other. absurd (no_clash (==-refl e.id) other)), alone-IsClear e es alone)
  | inr past ↦
      let found = sym (find-past p e es past) ∙ h in
      let away = found_conflict p e c es found alone in
      (
        (λ other. (both_false (c.id == e.id) (clash c e) (conflicts_comm c e ∙ away)).1),
        found-IsClear p c es found rest,
      )
]
