-- ===== src/Base62/Buffers.antt =====
-- `DecodeToBuf` against `Decode`.
use yellowstone_common.Common.{
  ℕ, zero, suc, ◌+◌, ◌-◌, ◌*◌, ◌/◌, ◌≤◌, ◌≡◌, refl, sym, ap, ◌∙◌, arith, ◌==◌, false, ltb,
  if◌then◌else◌, [], ◌∷◌, ◌++◌, ◌⊎◌, inl, inr, Bytes, length, All, some, get_elem?, drop, take,
  length-append, length-drop, length-take_le, take-append, take_front, is_empty, Bool-cases,
}
use yellowstone_common.Common.Outcome.{Outcome, ok, err}
use mathlib.Core.List.{append-nil}
use mathlib.Core.Path.{ap₂}
use yellowstone_common.Base62.{Encoding}
use yellowstone_common.Base62.Tables.{IsValid}
use yellowstone_common.Base62.Digits.{IsByte}
use yellowstone_common.Base62.Decoder.{
  Error, corrupt_input, Slice, contents, decode, decode_to_buf, decode_loop, zeros,
}
use yellowstone_common.Base62.Decoder.Undo.{undigits}
use yellowstone_common.Base62.Decoder.Buffer.{Spells, decode_loop-undigits}
use yellowstone_common.Base62.Errors.{all_good, first_bad, loop_corrupt, decode_total}
use yellowstone_common.Base62.RoundTrip.{drop_all, length-zeros}

-- The memory that `DecodeToBuf` works on.
abbrev grown : Slice → Bytes → Bytes
grown s src =
    if ltb (length s.memory) (s.len + (length src * 6 / 8 + 1))
    then contents s ++ zeros (length src * 6 / 8 + 1)
    else s.memory

pub record IsSlice (s : Slice) : Type 0 where
  pub within : s.len ≤ length s.memory

module _ (s : Slice) (src : Bytes) (h : IsSlice s) where
  take-grown : take s.len (grown s src) ≡ contents s
  take-grown = elim (Bool-cases (ltb (length s.memory) (s.len + (length src * 6 / 8 + 1)))) [
    | inl e ↦ rw e (take_front s.len (contents s) _ (length-take_le s.len s.memory h.within))
    | inr e ↦ rw e
  ]

  length-grown : s.len + (length src * 6 / 8 + 1) ≤ length (grown s src)
  length-grown = elim (Bool-cases (ltb (length s.memory) (s.len + (length src * 6 / 8 + 1)))) [
    | inl e ↦ rw e (
        omega (
          arith,
          length-append (contents s) (zeros (length src * 6 / 8 + 1)),
          length-take_le s.len s.memory h.within,
          length-zeros (length src * 6 / 8 + 1),
        ))
    | inr e ↦ rw e (ground arith)
  ]

-- The result of the move: the decoded bytes stand first.
shifted :
    (idx : ℕ) (spare out : Bytes)
    → drop idx spare ≡ out
    → idx ≤ length spare
    → (rest : Bytes) × ((if idx == 0
          then spare
          else drop idx spare ++ drop (length spare - idx) spare)
        ≡ out ++ rest)
shifted zero spare out e h = ([], e ∙ sym (append-nil out))
shifted (suc idx) spare out e h =
    let moved : (suc idx == 0) ≡ false = ground arith in
    (drop (length spare - suc idx) spare, rw (moved, e))

-- Decoding behind the contents of a slice.
record Extends (s : Slice) (r : Outcome Error Slice) (out : Bytes) : Type 0 where
  pub after : Slice
  pub run : r ≡ ok after
  pub appended : contents after ≡ out
  pub valid : IsSlice after

decode_behind :
    (enc : Encoding) (s : Slice) (c : ℕ) (cs xs : Bytes)
    → IsSlice s
    → Spells enc.decode_map (c ∷ cs) xs
    → Extends s (decode_to_buf enc s (c ∷ cs)) (contents s ++ undigits xs 0 0 [])
unfolding decode_to_buf
decode_behind enc s c cs xs h spells =
    let src : Bytes = c ∷ cs in
    let memory : Bytes = grown s src in
    let spare : Bytes = drop s.len memory in
    let out : Bytes = undigits xs 0 0 [] in
    let enough = length-grown s src h in
    let size : length spare ≡ length memory - s.len = length-drop s.len memory in
    let l =
      decode_loop-undigits enc.decode_map src xs 0 (length spare) spare 0 0 spells (omega arith)
        (omega arith) (omega arith) in
    let result : drop l.idx l.dst ≡ out =
      l.result ∙ ap (undigits xs 0 0) (drop_all (length spare) spare refl) in
    let (rest, place) = shifted l.idx l.dst out result (omega (arith, l.room, l.kept)) in
    let front = length-take_le s.len memory (omega arith) in
    let count : length out ≡ length spare - l.idx =
      omega (arith, ap (λ (t : Bytes). length t) result, length-drop l.idx l.dst, l.kept) in
    let total : length memory - l.idx ≡ s.len + length out = omega (arith, l.room) in
    record {
      after = record { memory = take s.len memory ++ (out ++ rest); len = length memory - l.idx };
      run = rw (l.run, place);
      appended = rw total (
          take-append s.len (length out) (take s.len memory) (out ++ rest) front
          ∙ ap₂ ◌++◌ (take-grown s src h) (take_front (length out) out rest refl));
      valid = record {
        within = omega (
          arith,
          total,
          front,
          length-append (take s.len memory) (out ++ rest),
          length-append out rest,
        );
      };
    }

corrupt_behind :
    (enc : Encoding) (s : Slice) (src front xs : Bytes) (c : ℕ) (rest : Bytes)
    → IsSlice s
    → src ≡ front ++ (c ∷ rest)
    → Spells enc.decode_map front xs
    → get_elem? enc.decode_map c ≡ some 0xFF
    → decode_to_buf enc s src ≡ err (corrupt_input (length front))
unfolding decode_to_buf
corrupt_behind enc s [] [] xs c rest h e spells bad = absurd (ground arith)
corrupt_behind enc s [] (d ∷ front) xs c rest h e spells bad = absurd (ground arith)
corrupt_behind enc s (a ∷ src) front xs c rest h e spells bad =
    let spare : Bytes = drop s.len (grown s (a ∷ src)) in
    let enough = length-grown s (a ∷ src) h in
    let size : length spare ≡ length (grown s (a ∷ src)) - s.len = length-drop s.len _ in
    let total : length (a ∷ src) ≡ length front + suc (length rest) =
      ap (λ (t : Bytes). length t) e ∙ length-append front (c ∷ rest) in
    let run : decode_loop enc.decode_map 0 (a ∷ src) (length spare) spare 0 0
        ≡ err (corrupt_input (0 + length front)) =
      ap (λ (t : Bytes). decode_loop enc.decode_map 0 t (length spare) spare 0 0) e
      ∙ loop_corrupt enc.decode_map front xs c rest 0 (length spare) spare 0 0 spells bad
          (omega arith) (omega arith) (omega arith) in
    rw run (ap (λ (t : ℕ). err (corrupt_input t)) (omega arith))

-- `DecodeToBuf` fails where `Decode` does, with the same error. Else the slice that it returns is
-- well formed and holds the old contents and then what `Decode` gives, but for an empty source,
-- where it is empty.
abbrev pub DecodesBehind : Encoding → Slice → Bytes → Type 0
DecodesBehind enc s src =
    ((out : Bytes) × (decode enc src ≡ ok out)
      × (after : Slice) × (decode_to_buf enc s src ≡ ok after)
      × (contents after ≡ (if is_empty src then [] else contents s ++ out))
      × IsSlice after)
    ⊎ ((e : Error) × (decode enc src ≡ err e) × (decode_to_buf enc s src ≡ err e))

pub decode_to_buf-decode :
    (enc : Encoding) (s : Slice) (src : Bytes)
    → IsValid enc
    → All IsByte src
    → IsSlice s
    → DecodesBehind enc s src
decode_to_buf-decode enc s [] v bytes h = inl (
  [],
  unfold decode in refl,
  record { memory = []; len = 0 },
  unfold decode_to_buf in refl,
  refl,
  omega arith,
)
decode_to_buf-decode enc s (c ∷ cs) v bytes h = elim (decode_total enc (c ∷ cs) v bytes) [
  | all_good xs good spells run ↦
      let e = decode_behind enc s c cs xs h spells in
      inl (undigits xs 0 0 [], run, e.after, e.run, e.appended, e.valid)
  | first_bad front d rest e xs good spells bad absent run ↦ inr (
    corrupt_input (length front),
    run,
    corrupt_behind enc s (c ∷ cs) front xs d rest h e spells bad,
  )
]
