-- ===== src/OpenOcd/Buffer.antt =====
-- The buffer of output lines of crates/openocd-client/src/client.rs.
use teledap.Prelude.{
  ℕ, suc, ◌-◌, ◌≤◌, ◌≡◌, refl, sym, ap, ◌∙◌, subst, true, List, [], ◌∷◌, ◌++◌, append_assoc,
  append-nil, arith, ltb, length, drop, length-drop, length-append, Bool-cases, inl, inr, ltb→ge,
  ltb→lt,
}
use teledap.OpenOcd.{Line, OpenOcdClient, max_stdout_buffer_lines, trim, read_line, read_lines}

-- The last `n` items.
abbrev pub last : ℕ → List Line → List Line
last n l = drop (length l - n) l

pub last_of_le : (n : ℕ) (l : List Line) → length l ≤ n → last n l ≡ l
last_of_le n l h = let e : length l - n ≡ 0 = omega (arith, h) in rw e refl

last-cons : (n : ℕ) (x : Line) (l : List Line) → n ≤ length l → last n (x ∷ l) ≡ last n l
last-cons n x l h = let e : suc (length l) - n ≡ suc (length l - n) = omega (arith, h) in rw e refl

pub length-last : (n : ℕ) (l : List Line) → length (last n l) ≤ n
length-last n l = let e = length-drop (length l - n) l in omega (arith, e)

last-append_last : (n : ℕ) (l k : List Line) → last n (last n l ++ k) ≡ last n (l ++ k)
last-append_last n [] k = let e : 0 - n ≡ 0 = omega arith in rw e refl
last-append_last n (x ∷ l) k = elim (Bool-cases (ltb (length l) n)) [
  | inl p ↦
      let h = ltb→lt (length l) n p in
      ap (λ m. last n (m ++ k)) (last_of_le n (x ∷ l) (omega (arith, h)))
  | inr p ↦
      let h = ltb→ge (length l) n p in
      let e = length-append l k in
      ap (λ m. last n (m ++ k)) (last-cons n x l h)
      ∙ last-append_last n l k
      ∙ sym (last-cons n x (l ++ k) (omega (arith, e, h)))
]

-- Trimming keeps the last lines.
pub trim-last : (ls : List Line) → trim ls ≡ last max_stdout_buffer_lines ls
unfolding trim
trim-last [] = refl
trim-last (l ∷ ls) = elim (Bool-cases (ltb max_stdout_buffer_lines (length (l ∷ ls)))) [
  | inl p ↦
      let q = ltb→lt max_stdout_buffer_lines (length (l ∷ ls)) p in
      rw p (trim-last ls ∙ sym (last-cons max_stdout_buffer_lines l ls (omega (arith, q))))
  | inr p ↦
      let q = ltb→ge max_stdout_buffer_lines (length (l ∷ ls)) p in
      rw p (sym (last_of_le max_stdout_buffer_lines (l ∷ ls) q))
]

-- Whatever lines the output reader takes in, a buffer of at most a thousand lines holds the last
-- thousand of its lines and the new ones, in their order.
pub read_lines-last :
    (ls : List Line) (c : OpenOcdClient)
    → length c.stdout_lines ≤ max_stdout_buffer_lines
    → (read_lines ls c).stdout_lines ≡ last max_stdout_buffer_lines (c.stdout_lines ++ ls)
unfolding read_lines read_line
read_lines-last [] c h = sym (
    ap (λ l. last max_stdout_buffer_lines l) (append-nil c.stdout_lines)
    ∙ last_of_le max_stdout_buffer_lines c.stdout_lines h)
read_lines-last (l ∷ ls) c h =
    let b = c.stdout_lines ++ l ∷ [] in
    let e = trim-last b in
    let bound : length (trim b) ≤ max_stdout_buffer_lines =
      subst (λ t. length t ≤ max_stdout_buffer_lines) (sym e)
        (length-last max_stdout_buffer_lines b) in
    read_lines-last ls (read_line true l c) bound
    ∙ ap (λ t. last max_stdout_buffer_lines (t ++ ls)) e
    ∙ last-append_last max_stdout_buffer_lines b ls
    ∙ ap (λ t. last max_stdout_buffer_lines t) (append_assoc c.stdout_lines (l ∷ []) ls)
