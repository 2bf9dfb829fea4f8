-- ===== src/Trace/Ring.antt =====
-- What the ring buffer of crates/dap-trace holds, however sending and consuming interleave.
use mathlib.Core.List.{reverse-append, reverse-cons}
use teledap.Prelude.{
  ℕ, zero, suc, ◌-◌, ◌≤◌, ◌<◌, ◌≡◌, refl, sym, ap, ◌∙◌, subst, List, [], ◌∷◌, ◌++◌, append_assoc,
  append-nil, arith, leb, length, length-append, length-drop, take-append-drop, take-append_of_le,
  take, drop, reverse, Bool-cases, inl, inr, true, false, leb→le,
}
use teledap.Trace.{TraceEntry, Trace, Written, trace, push, consume, turn, recent}

-- A buffer of size zero holds one entry: it is emptied only before an entry is pushed.
abbrev pub capacity : ℕ → ℕ
capacity zero = 1
capacity (suc n) = suc n

module _ {ℓ} {A : Type ℓ} where
  -- The last `n` items.
  abbrev pub last : ℕ → List A → List A
  last n l = drop (length l - n) l

  drop_of_length : (n : ℕ) (l k : List A) → n ≤ length l → drop n (l ++ k) ≡ drop n l ++ k
  drop_of_length zero l k h = refl
  drop_of_length (suc n) [] k h = absurd (omega (arith, h))
  drop_of_length (suc n) (x ∷ l) k h = drop_of_length n l k (omega (arith, h))

  drop-drop : (n : ℕ) (l : List A) → drop 1 (drop n l) ≡ drop (suc n) l
  drop-drop zero l = refl
  drop-drop (suc n) [] = refl
  drop-drop (suc n) (x ∷ l) = drop-drop n l

  -- In a list that is short enough they are all.
  last_of_short : (n : ℕ) (l : List A) → length l ≤ n → last n l ≡ l
  last_of_short n l h =
      let none_left : length l - n ≡ 0 = omega (arith, h) in ap (λ k. drop k l) none_left

module _ {ℓ} {A : Type ℓ} where
  length-reverse : (l : List A) → length (reverse l) ≡ length l
  length-reverse [] = refl
  length-reverse (x ∷ l) =
      let more = length-append (reverse l) (x ∷ []) in
      ap (λ k. length k) (reverse-cons x l) ∙ omega (arith, more, length-reverse l)

  -- The end of a list, from its back on, is the list from its back on.
  take-reverse-last :
      (n : ℕ) (l : List A) (count : ℕ)
      → count ≤ n
      → take count (reverse (last n l)) ≡ take count (reverse l)
  take-reverse-last n l count h = elim (Bool-cases (leb n (length l))) [
    | inl p ↦
        let m = length l - n in
        let fits = length-drop m l in
        let room : count ≤ length (reverse (drop m l)) =
          omega (arith, length-reverse (drop m l), fits, h, leb→le n (length l) p) in
        let whole : reverse l ≡ reverse (drop m l) ++ reverse (take m l) =
          ap (λ k. reverse k) (sym (take-append-drop m l)) ∙ reverse-append (take m l) (drop m l) in
        sym (take-append_of_le count (reverse (drop m l)) (reverse (take m l)) room)
        ∙ ap (λ k. take count k) (sym whole)
    | inr p ↦ ap (λ k. take count (reverse k)) (last_of_short n l (ground (arith, p)))
  ]

capacity-IsBound : (size : ℕ) → (1 ≤ capacity size) × (size ≤ capacity size)
capacity-IsBound zero = (omega arith, omega arith)
capacity-IsBound (suc n) = (omega arith, omega arith)

push_room :
    (size : ℕ) (l : List TraceEntry) (e : TraceEntry)
    → length l < capacity size
    → push size l e ≡ l ++ e ∷ []
unfolding push
push_room zero [] e h = refl
push_room zero (x ∷ l) e h = absurd (omega (arith, h))
push_room (suc n) l e h = let room : leb (suc n) (length l) ≡ false = ground (arith, h) in rw room

module _ (size : ℕ) (l : List TraceEntry) (e : TraceEntry) where
  push_full :
      capacity size ≤ length l
      → push size (last (capacity size) l) e ≡ last (capacity size) (l ++ e ∷ [])
  unfolding push
  push_full h =
      let b = capacity-IsBound size in
      let n = length-drop (length l - capacity size) l in
      let full : leb size (length (last (capacity size) l)) ≡ true =
        ground (arith, b.0, b.1, n, h) in
      let first : length (l ++ e ∷ []) - capacity size ≡ suc (length l - capacity size) =
        omega (arith, length-append l (e ∷ []), h) in
      let k = length l - capacity size in
      rw (full, first)
        (ap (λ d. d ++ e ∷ []) (drop-drop k l)
          ∙ sym (drop_of_length (suc k) l (e ∷ []) (omega (arith, h, b.0))))

  push_short :
      length l < capacity size
      → push size (last (capacity size) l) e ≡ last (capacity size) (l ++ e ∷ [])
  push_short h =
      let longer : length (l ++ e ∷ []) ≤ capacity size =
        omega (arith, length-append l (e ∷ []), h) in
      ap (λ k. push size k e) (last_of_short (capacity size) l (omega (arith, h)))
      ∙ push_room size l e h
      ∙ sym (last_of_short (capacity size) (l ++ e ∷ []) longer)

-- One entry more in the last ones.
push-last :
    (size : ℕ) (l : List TraceEntry) (e : TraceEntry)
    → push size (last (capacity size) l) e ≡ last (capacity size) (l ++ e ∷ [])
push-last size l e = elim (Bool-cases (leb (capacity size) (length l))) [
  | inl h ↦ push_full size l e (leb→le (capacity size) (length l) h)
  | inr h ↦ push_short size l e (ground (arith, h))
]

nothing : {A : Type 0} (l : List A) → length l ≤ 0 → l ≡ []
nothing [] h = refl
nothing (x ∷ l) h = absurd (omega (arith, h))

-- What the handles and the task do.
pub data Step : Type 0 where
  send : TraceEntry → Step
  take_next : Written → Step

module _ (size : ℕ) where
  unfoldable pub step : Trace → Step → Trace
  step t (send e) = trace t e
  step t (take_next w) = consume size w t

  unfoldable pub steps : Trace → List Step → Trace
  unfolding step
  steps t [] = t
  steps t (s ∷ l) = steps (step t s) l

unfoldable pub sent : List Step → List TraceEntry
sent [] = []
sent (send e ∷ l) = e ∷ sent l
sent (take_next w ∷ l) = sent l

-- `all` is what was sent so far: a first part of it has been consumed, in order, and the buffer
-- holds the last entries of this part; the rest is in the channel.
abbrev pub IsWindow : ℕ → List TraceEntry → Trace → Type 0
IsWindow size all t =
    (consumed : List TraceEntry) × (all ≡ consumed ++ t.channel)
    × (t.ring ≡ last (capacity size) consumed)

consume-IsWindow :
    (size : ℕ) (all : List TraceEntry) (w : Written) (t : Trace) (c : List TraceEntry)
    → (t.channel ≡ c)
    → IsWindow size all t
    → IsWindow size all (turn size w t c)
consume-IsWindow size all w t [] q h = h
consume-IsWindow size all w t (e ∷ c) q (consumed, p, r) = (
  consumed ++ e ∷ [],
  p ∙ ap (λ k. consumed ++ k) q ∙ sym (append_assoc consumed (e ∷ []) c),
  ap (λ k. push size k e) r ∙ push-last size consumed e,
)

step-IsWindow :
    (size : ℕ) (all : List TraceEntry) (t : Trace) (s : Step)
    → IsWindow size all t
    → IsWindow size (all ++ sent (s ∷ [])) (step size t s)
unfolding step sent trace consume
step-IsWindow size all t (send e) (consumed, p, r) =
    (consumed, ap (λ k. k ++ e ∷ []) p ∙ append_assoc consumed t.channel (e ∷ []), r)
step-IsWindow size all t (take_next w) h =
    subst (λ k. IsWindow size k (turn size w t t.channel)) (sym (append-nil all))
      (consume-IsWindow size all w t t.channel refl h)

sent-cons : (s : Step) (l : List Step) → sent (s ∷ l) ≡ sent (s ∷ []) ++ sent l
unfolding sent
sent-cons (send e) l = refl
sent-cons (take_next w) l = refl

steps-IsWindow_from :
    (size : ℕ) (all : List TraceEntry) (t : Trace) (l : List Step)
    → IsWindow size all t
    → IsWindow size (all ++ sent l) (steps size t l)
unfolding steps sent
steps-IsWindow_from size all t [] h = subst (λ k. IsWindow size k t) (sym (append-nil all)) h
steps-IsWindow_from size all t (s ∷ l) h =
    let order : all ++ sent (s ∷ l) ≡ (all ++ sent (s ∷ [])) ++ sent l =
      ap (λ k. all ++ k) (sent-cons s l) ∙ sym (append_assoc all (sent (s ∷ [])) (sent l)) in
    subst (λ k. IsWindow size k (steps size (step size t s) l)) (sym order)
      (steps-IsWindow_from size (all ++ sent (s ∷ [])) (step size t s) l
        (step-IsWindow size all t s h))

-- However sending and consuming interleave, the buffer holds the last entries that were consumed, as
-- many as it has room for, in the order in which they were sent, and the channel the rest.
pub steps-IsWindow :
    (size : ℕ) (t : Trace) (l : List Step)
    → t.channel ≡ []
    → t.ring ≡ []
    → IsWindow size (sent l) (steps size t l)
steps-IsWindow size t l p q =
    steps-IsWindow_from size [] t l
      ([], sym p, q ∙ sym (last_of_short (capacity size) [] (omega arith)))

-- `recent` of a buffer that has taken in everything.
recent_last :
    (size : ℕ) (all : List TraceEntry) (t : Trace) (count : ℕ)
    → IsWindow size all t
    → t.channel ≡ []
    → count ≤ capacity size
    → recent t count ≡ take count (reverse all)
unfolding recent
recent_last size all t count (consumed, p, r) q h =
    let same : all ≡ consumed = p ∙ ap (λ k. consumed ++ k) q ∙ append-nil consumed in
    ap (λ k. take count (reverse k)) r
    ∙ take-reverse-last (capacity size) consumed count h
    ∙ ap (λ k. take count (reverse k)) (sym same)

-- If the task has taken in everything that was sent, `recent` returns what was sent last, the last
-- entry first: as many entries as asked for, if the buffer has room for so many.
pub recent-steps :
    (size : ℕ) (t : Trace) (l : List Step) (count : ℕ)
    → t.channel ≡ []
    → t.ring ≡ []
    → (steps size t l).channel ≡ []
    → count ≤ capacity size
    → recent (steps size t l) count ≡ take count (reverse (sent l))
recent-steps size t l count p q r h =
    recent_last size (sent l) (steps size t l) count (steps-IsWindow size t l p q) r h

abbrev pub turns : List Written → List Step
turns [] = []
turns (w ∷ ws) = take_next w ∷ turns ws

shorter :
    (size : ℕ) (w : Written) (t : Trace) (c : List TraceEntry) (n : ℕ)
    → length c ≤ suc n
    → t.channel ≡ c
    → length (turn size w t c).channel ≤ n
shorter size w t [] n h p = rw p (omega arith)
shorter size w t (e ∷ c) n h p = omega (arith, h)

-- With as many turns as there are entries in the channel, or more, the task takes in all of them,
-- whether writing them to the file succeeds or not.
pub drain :
    (size : ℕ) (t : Trace) (ws : List Written)
    → length t.channel ≤ length ws
    → (steps size t (turns ws)).channel ≡ []
unfolding steps step consume
drain size t [] h = nothing t.channel h
drain size t (w ∷ ws) h =
    drain size (turn size w t t.channel) ws (shorter size w t t.channel (length ws) h refl)
