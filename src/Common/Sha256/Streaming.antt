-- ===== src/Common/Sha256/Streaming.antt =====
-- cpp/common/file_fingerprint.cpp: `update` on the buffered bytes.
use Prim.Native.Nat.{min}
use technical_doc_parser.Prelude.{
  ℕ, zero, suc, ◌+◌, ◌-◌, ◌≤◌, ◌≡◌, refl, sym, ap, ◌∙◌, List, [], ◌∷◌, arith, ◌%◌, ◌^◌, length,
  take, drop, length-take, length-drop, take-append-drop,
}
use technical_doc_parser.Common.Sha256.Buffer.{
  IsBuffer, view, absorb_all, absorb_all-append, copy_in-IsBuffer, view-copy_in,
}
use technical_doc_parser.Common.Sha256.{Sha256, copy_in, update_loop, update}

-- What a pass takes off the input.
abbrev copied : List ℕ → Sha256 → ℕ
copied bytes s = min (length bytes) (64 - s.block_size)

module _ (b : ℕ) (bytes : List ℕ) (s : Sha256) (v : IsBuffer s) where
  copied_fits : s.block_size + length (take (copied (b ∷ bytes) s) (b ∷ bytes)) ≤ 64
  copied_fits = omega (arith, v.room, length-take (copied (b ∷ bytes) s) (b ∷ bytes))

  copied_shorter : length (drop (copied (b ∷ bytes) s) (b ∷ bytes)) ≤ length bytes
  copied_shorter = omega (arith, v.room, length-drop (copied (b ∷ bytes) s) (b ∷ bytes))

update_loop-IsBuffer :
    (fuel : ℕ) (bytes : List ℕ) (s : Sha256)
    → length bytes ≤ fuel
    → IsBuffer s
    → IsBuffer (update_loop fuel bytes s)
unfolding update_loop
update_loop-IsBuffer zero bytes s h v = v
update_loop-IsBuffer (suc fuel) [] s h v = v
update_loop-IsBuffer (suc fuel) (b ∷ bytes) s h v =
    let chunk = take (copied (b ∷ bytes) s) (b ∷ bytes) in
    update_loop-IsBuffer fuel (drop (copied (b ∷ bytes) s) (b ∷ bytes)) (copy_in s chunk)
      (omega (arith, copied_shorter b bytes s v))
      (copy_in-IsBuffer s chunk v (copied_fits b bytes s v))

view-update_loop :
    (fuel : ℕ) (bytes : List ℕ) (s : Sha256)
    → length bytes ≤ fuel
    → IsBuffer s
    → view (update_loop fuel bytes s) ≡ absorb_all (view s) bytes
unfolding update_loop absorb_all
view-update_loop zero [] s h v = refl
view-update_loop zero (b ∷ bytes) s h v = absurd (omega arith)
view-update_loop (suc fuel) [] s h v = refl
view-update_loop (suc fuel) (b ∷ bytes) s h v =
    let n = copied (b ∷ bytes) s in
    let chunk = take n (b ∷ bytes) in
    let rest = drop n (b ∷ bytes) in
    let fits = copied_fits b bytes s v in
    view-update_loop fuel rest (copy_in s chunk) (omega (arith, copied_shorter b bytes s v))
      (copy_in-IsBuffer s chunk v fits)
    ∙ ap (λ w. absorb_all w rest) (view-copy_in s chunk v fits)
    ∙ sym (absorb_all-append (view s) chunk rest)
    ∙ ap (absorb_all (view s)) (take-append-drop n (b ∷ bytes))

total_size-update_loop :
    (fuel : ℕ) (bytes : List ℕ) (s : Sha256) → (update_loop fuel bytes s).total_size ≡ s.total_size
unfolding update_loop copy_in
total_size-update_loop zero bytes s = refl
total_size-update_loop (suc fuel) [] s = refl
total_size-update_loop (suc fuel) (b ∷ bytes) s =
    total_size-update_loop fuel (drop (copied (b ∷ bytes) s) (b ∷ bytes))
      (copy_in s (take (copied (b ∷ bytes) s) (b ∷ bytes)))
    ∙ ground arith

-- From a digest whose buffer is well formed, `update` absorbs exactly the given bytes, one after
-- the other, keeps the buffer well formed, and adds their number to the running length modulo 2 ^ 64.
pub view-update :
    (bytes : List ℕ) (s : Sha256)
    → IsBuffer s
    → (view (update bytes s) ≡ absorb_all (view s) bytes)
      × IsBuffer (update bytes s)
      × ((update bytes s).total_size ≡ (s.total_size + length bytes) % 2 ^ 64)
unfolding update view
view-update bytes s v =
    let counted : Sha256 = record s { total_size = (s.total_size + length bytes) % 2 ^ 64 } in
    let kept : IsBuffer counted = record { block_full = v.block_full; room = v.room } in
    (
      view-update_loop (length bytes) bytes counted (omega arith) kept,
      update_loop-IsBuffer (length bytes) bytes counted (omega arith) kept,
      total_size-update_loop (length bytes) bytes counted,
    )
