-- ===== src/Hermes/Accumulated/Bounds.antt =====
-- The size of the rolling summary (hermes/accumulated.go).
use alice_core.Prelude.{
  ℕ, zero, suc, ◌-◌, ◌≤◌, ◌≡◌, ◌↔◌, refl, arith, true, false, Str, ltb, sle, is_empty, length, drop,
  List, [], ◌∷◌, Bool-cases, inl, inr, after_newline,
}
use alice_core.Hermes.Accumulated.{
  cheap_path_max_bytes, expensive_path_trigger_bytes, expensive_path_trigger_count, fifo_truncate,
  append_result, extract_conclusion, with_line,
}

length-drop : {A : Type 0} (n : ℕ) (xs : List A) → length (drop n xs) ≡ length xs - n
length-drop zero xs = omega arith
length-drop (suc n) [] = omega arith
length-drop (suc n) (x ∷ xs) = omega (arith, length-drop n xs)

length-after_newline :
    (n : ℕ) (whole s : Str) → length whole ≤ n → length s ≤ n → length (after_newline whole s) ≤ n
length-after_newline n whole [] h k = h
length-after_newline n whole (c ∷ cs) h k = ground (arith, length-after_newline n whole cs)

length-fifo_truncate : (s : Str) → length (fifo_truncate s) ≤ cheap_path_max_bytes
unfolding fifo_truncate
length-fifo_truncate s = elim (Bool-cases (ltb cheap_path_max_bytes (length s))) [
  | inl long ↦ rw long (length-after_newline cheap_path_max_bytes _ _ (cut long) (cut long))
  | inr short ↦ rw short (ground arith)
]
  where
    cut :
        ltb cheap_path_max_bytes (length s) ≡ true
        → length (drop (length s - cheap_path_max_bytes) s) ≤ cheap_path_max_bytes
    cut h = ground (arith, length-drop (length s - cheap_path_max_bytes) s)

-- A summary within the cheap limit of 3072 bytes stays within it, whatever the sub-task reports.
pub append_result-le :
    (accumulated result : Str) (completed : ℕ)
    → length accumulated ≤ cheap_path_max_bytes
    → length (append_result accumulated result completed).0 ≤ cheap_path_max_bytes
unfolding append_result
append_result-le accumulated result completed h =
    elim (Bool-cases (is_empty (extract_conclusion result))) [
      | inl e ↦ rw e h
      | inr e ↦ rw e (length-fifo_truncate (with_line accumulated (extract_conclusion result)))
    ]

-- The compression flag is raised exactly when the result has a conclusion and the number of
-- completed sub-tasks reaches its trigger: the size trigger never raises it.
append_result-compress_iff :
    (accumulated result : Str) (completed : ℕ)
    → ((append_result accumulated result completed).1 ≡ true) ↔ (
        (is_empty (extract_conclusion result) ≡ false)
        × (sle expensive_path_trigger_count completed ≡ true))
unfolding append_result
append_result-compress_iff accumulated result completed =
    let cut = fifo_truncate (with_line accumulated (extract_conclusion result)) in
    let never : ltb expensive_path_trigger_bytes (length cut) ≡ false =
      ground (arith, length-fifo_truncate (with_line accumulated (extract_conclusion result))) in
    elim (Bool-cases (is_empty (extract_conclusion result))) [
      | inl e ↦ rw e (λ h. cc, λ h. cc h.0)
      | inr e ↦ rw (e, never) (λ h. (refl, h), λ h. h.1)
    ]
