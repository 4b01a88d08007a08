-- ===== src/Transport/Bytes.antt =====
-- The bytes of a packet in the beats that carry it.
use tsn_gen.Prelude.{
  ℕ, zero, suc, ◌+◌, ◌-◌, ◌*◌, ◌/◌, ◌^◌, ◌≤◌, ◌<◌, min, leb, le→leb, lt→leb, ◌==◌, bit_and, bit_or,
  ◌≡◌, refl, sym, ap, ap₂, ◌∙◌, arith, Bool, true, false, not, List, [], ◌∷◌, ◌++◌, append-nil,
  append_assoc, length, drop, get_or, if◌then◌else◌, All,
}
use tsn_gen.Bits.{u8, u64}
use tsn_gen.Bits.Word.{all_below, all_below_sound}
use tsn_gen.Bits.Digits.{bit_or_above}
use tsn_gen.Transport.{AxiStreamBeat, tdata_loop, keep_loop}

abbrev pub AllBytes : List ℕ → Type 0
AllBytes bs = All (λ b. b < 256) bs

-- Bytes from a place on, the least significant first.
unfoldable pub val_at : ℕ → List ℕ → ℕ
val_at i [] = 0
val_at i (b ∷ bs) = b * 2 ^ (i * 8) + val_at (i + 1) bs

-- The eight places of a beat, one by one.
pub at_place :
    (P : ℕ → Type 0) → P 0 → P 1 → P 2 → P 3 → P 4 → P 5 → P 6 → P 7 → (i : ℕ) → i < 8 → P i
at_place P p0 p1 p2 p3 p4 p5 p6 p7 zero h = p0
at_place P p0 p1 p2 p3 p4 p5 p6 p7 (suc zero) h = p1
at_place P p0 p1 p2 p3 p4 p5 p6 p7 (suc (suc zero)) h = p2
at_place P p0 p1 p2 p3 p4 p5 p6 p7 (suc (suc (suc zero))) h = p3
at_place P p0 p1 p2 p3 p4 p5 p6 p7 (suc (suc (suc (suc zero)))) h = p4
at_place P p0 p1 p2 p3 p4 p5 p6 p7 (suc (suc (suc (suc (suc zero))))) h = p5
at_place P p0 p1 p2 p3 p4 p5 p6 p7 (suc (suc (suc (suc (suc (suc zero)))))) h = p6
at_place P p0 p1 p2 p3 p4 p5 p6 p7 (suc (suc (suc (suc (suc (suc (suc zero))))))) h = p7
at_place P p0 p1 p2 p3 p4 p5 p6 p7 (suc (suc (suc (suc (suc (suc (suc (suc i)))))))) h =
    absurd (omega arith)

byte_fits :
    (i : ℕ)
    → i < 8
    → (b t : ℕ) → b < 256
    → t < 2 ^ (i * 8)
    → t + b * 2 ^ (i * 8) < 2 ^ ((i + 1) * 8)
byte_fits =
    at_place (λ i. (b t : ℕ) → b < 256 → t < 2 ^ (i * 8) → t + b * 2 ^ (i * 8) < 2 ^ ((i + 1) * 8))
      (λ b t hb ht. omega arith) (λ b t hb ht. omega arith) (λ b t hb ht. omega arith)
      (λ b t hb ht. omega arith) (λ b t hb ht. omega arith) (λ b t hb ht. omega arith)
      (λ b t hb ht. omega arith) (λ b t hb ht. omega arith)

byte_word : (i : ℕ) → i < 8 → (b : ℕ) → b < 256 → u64 (b * 2 ^ (i * 8)) ≡ b * 2 ^ (i * 8)
byte_word =
    at_place (λ i. (b : ℕ) → b < 256 → u64 (b * 2 ^ (i * 8)) ≡ b * 2 ^ (i * 8))
      (λ b hb. omega arith) (λ b hb. omega arith) (λ b hb. omega arith) (λ b hb. omega arith)
      (λ b hb. omega arith) (λ b hb. omega arith) (λ b hb. omega arith) (λ b hb. omega arith)

byte_at :
    (i : ℕ)
    → i < 8
    → (b t w : ℕ) → b < 256
    → t < 2 ^ (i * 8)
    → u8 ((t + (b * 2 ^ (i * 8) + w * 2 ^ ((i + 1) * 8))) / 2 ^ (i * 8)) ≡ b
byte_at =
    at_place
      (λ i.
        (b t w : ℕ)
        → b < 256
        → t < 2 ^ (i * 8)
        → u8 ((t + (b * 2 ^ (i * 8) + w * 2 ^ ((i + 1) * 8))) / 2 ^ (i * 8)) ≡ b)
      (λ b t w hb ht. omega arith) (λ b t w hb ht. omega arith) (λ b t w hb ht. omega arith)
      (λ b t w hb ht. omega arith) (λ b t w hb ht. omega arith) (λ b t w hb ht. omega arith)
      (λ b t w hb ht. omega arith) (λ b t w hb ht. omega arith)

shift :
    (i : ℕ)
    → i < 8
    → (b w : ℕ) → b * 2 ^ (i * 8) + w * 2 ^ ((i + 1) * 8) ≡ (b + 256 * w) * 2 ^ (i * 8)
shift =
    at_place
      (λ i. (b w : ℕ) → b * 2 ^ (i * 8) + w * 2 ^ ((i + 1) * 8) ≡ (b + 256 * w) * 2 ^ (i * 8))
      (λ b w. omega arith) (λ b w. omega arith) (λ b w. omega arith) (λ b w. omega arith)
      (λ b w. omega arith) (λ b w. omega arith) (λ b w. omega arith) (λ b w. omega arith)

-- What lies above a place is a multiple of its weight.
val_at-multiple :
    (i : ℕ) (bs : List ℕ) → i + length bs ≤ 8 → (w : ℕ) × (val_at i bs ≡ w * 2 ^ (i * 8))
unfolding val_at
val_at-multiple i [] h = (0, omega arith)
val_at-multiple i (b ∷ bs) h =
    let (w, e) = val_at-multiple (i + 1) bs (omega arith) in
    (b + 256 * w, ap (λ (x : ℕ). b * 2 ^ (i * 8) + x) e ∙ shift i (omega arith) b w)

-- The bit of `tkeep` for a place, with `n` bytes kept.
kept : ℕ → ℕ → Bool
kept n i = bit_and (u8 (2 ^ n - 1)) (2 ^ i) == 0

keep_test : ℕ → ℕ → Bool
keep_test n i = if leb n i then kept n i else not (kept n i)

keep_table : all_below 9 (λ n. all_below 8 (keep_test n)) ≡ true
unfolding all_below keep_test kept
keep_table = refl

kept-leb : (n i : ℕ) → n ≤ 8 → i < 8 → kept n i ≡ leb n i
unfolding keep_test
kept-leb n i hn hi =
    let row = all_below_sound (λ n. all_below 8 (keep_test n)) 9 n (omega arith) keep_table in
    go (leb n i) (kept n i) (all_below_sound (keep_test n) 8 i hi row)
  where
    go : (a k : Bool) → (if a then k else not k) ≡ true → k ≡ a
    go true true h = refl
    go true false h = cc
    go false true h = cc
    go false false h = refl

get_or-drop :
    (xs : List ℕ) (n : ℕ) {b : ℕ} {ys : List ℕ}
    → drop n xs ≡ b ∷ ys
    → (get_or xs n 0 ≡ b) × (drop (n + 1) xs ≡ ys)
get_or-drop [] zero e = cc
get_or-drop [] (suc n) e = cc
get_or-drop (x ∷ xs) zero e = (cc, cc)
get_or-drop (x ∷ xs) (suc n) {b} {ys} e =
    let (here, next) = get_or-drop xs n e in
    let skip : drop (suc n + 1) (x ∷ xs) ≡ drop (n + 1) xs =
      ap (λ (k : ℕ). drop k (x ∷ xs)) {x = suc n + 1} {y = suc (n + 1)} (omega arith) in
    (here, skip ∙ next)

-- The word that a run of bytes makes.
pub tdata_loop_lem :
    (bs post packet : List ℕ) (offset i t : ℕ)
    → AllBytes bs
    → i + length bs ≤ 8
    → t < 2 ^ (i * 8)
    → drop (offset + i) packet ≡ bs ++ post
    → tdata_loop (length bs) packet offset i t ≡ t + val_at i bs
unfolding tdata_loop val_at
tdata_loop_lem [] post packet offset i t small h ht e = omega arith
tdata_loop_lem (b ∷ bs) post packet offset i t small h ht e =
    let (here, next) = get_or-drop packet (offset + i) e in
    let next' : drop (offset + (i + 1)) packet ≡ bs ++ post =
      ap (λ (n : ℕ). drop n packet) (omega arith) ∙ next in
    let above : bit_or t (u64 (get_or packet (offset + i) 0 * 2 ^ (i * 8))) ≡ t + b * 2 ^ (i * 8) =
      ap (λ (x : ℕ). bit_or t (u64 (x * 2 ^ (i * 8)))) here
      ∙ ap (bit_or t) (byte_word i (omega arith) b small.0)
      ∙ bit_or_above (i * 8) b t ht in
    ap (tdata_loop (length bs) packet offset (i + 1)) above
    ∙ tdata_loop_lem bs post packet offset (i + 1) (t + b * 2 ^ (i * 8)) small.1 (omega arith)
        (byte_fits i (omega arith) b t small.0 ht) next'
    ∙ omega arith

abbrev shows_bit : AxiStreamBeat → ℕ → Bool
shows_bit beat i = bit_and beat.tkeep (2 ^ i) == 0

shows_bit-leb :
    (beat : AxiStreamBeat) (count i : ℕ)
    → count ≤ 8
    → i < 8
    → beat.tkeep ≡ u8 (2 ^ count - 1)
    → shows_bit beat i ≡ leb count i
unfolding kept
shows_bit-leb beat count i small h k =
    ap (λ (x : ℕ). bit_and x (2 ^ i) == 0) k ∙ kept-leb count i small h

byte_in :
    (i b t : ℕ) (bs : List ℕ) (tdata : ℕ)
    → i + suc (length bs) ≤ 8
    → b < 256
    → t < 2 ^ (i * 8)
    → tdata ≡ t + (b * 2 ^ (i * 8) + val_at (i + 1) bs)
    → u8 (tdata / 2 ^ (i * 8)) ≡ b
byte_in i b t bs tdata h hb ht e =
    let (w, m) = val_at-multiple (i + 1) bs (omega arith) in
    ap (λ (x : ℕ). u8 (x / 2 ^ (i * 8))) (e ∙ ap (λ (x : ℕ). t + (b * 2 ^ (i * 8) + x)) m)
    ∙ byte_at i (omega arith) b t w hb ht

-- The bytes that the other side takes from it.
pub keep_loop_lem :
    (n i : ℕ) (bs acc : List ℕ) (t count : ℕ) (beat : AxiStreamBeat)
    → i + n ≡ 8
    → count ≤ 8
    → AllBytes bs
    → count ≡ min count i + length bs
    → t < 2 ^ (i * 8)
    → beat.tkeep ≡ u8 (2 ^ count - 1)
    → beat.tdata ≡ t + val_at i bs
    → keep_loop n i beat acc ≡ acc ++ bs
unfolding keep_loop val_at
keep_loop_lem zero i [] acc t count beat h small bytes c ht k d = sym (append-nil acc)
keep_loop_lem zero i (b ∷ bs) acc t count beat h small bytes c ht k d = absurd (omega arith)
keep_loop_lem (suc n) i [] acc t count beat h small bytes c ht k d =
    let fits = byte_fits i (omega arith) 0 t (omega arith) ht in
    ap
      (λ (x : Bool).
        keep_loop n (i + 1) beat (if x then acc else acc ++ u8 (beat.tdata / 2 ^ (i * 8)) ∷ []))
      (shows_bit-leb beat count i small (omega arith) k ∙ le→leb count i (omega arith))
    ∙ keep_loop_lem n (i + 1) [] acc t count beat (omega arith) small tt (omega arith) (omega arith)
        k d
keep_loop_lem (suc n) i (b ∷ bs) acc t count beat h small bytes c ht k d =
    ap₂ (λ (x : Bool) (y : ℕ). keep_loop n (i + 1) beat (if x then acc else acc ++ y ∷ []))
      (shows_bit-leb beat count i small (omega arith) k ∙ lt→leb count i (omega arith))
      (byte_in i b t bs beat.tdata (omega arith) bytes.0 ht d)
    ∙ keep_loop_lem n (i + 1) bs (acc ++ b ∷ []) (t + b * 2 ^ (i * 8)) count beat (omega arith)
        small bytes.1 (omega arith) (byte_fits i (omega arith) b t bytes.0 ht) k (omega arith)
    ∙ append_assoc acc (b ∷ []) bs
