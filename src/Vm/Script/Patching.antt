-- ===== src/Vm/Script/Patching.antt =====
-- What `to_script` fills in, and what it leaves as it is.
use phantasma_py.Vm.Script.Growing.{Spaced, Spaced-le}
use phantasma_py.Vm.Script.{
  LabelLocation, Jump, find_label, patch, patch_jumps, patch_to, patch_jump,
}
use phantasma_py.Text.{Text}
use phantasma_py.Bytes.{Bytes, to_le}
use phantasma_py.Prelude.{
  some, ℕ, List, get_or, take, ◌+◌, ◌<◌, drop, length, ◌++◌, ◌≡◌, ◌≤◌, ap, arith, ◌∷◌, ◌⊎◌, All,
  inl, length-append, suc, sym, ◌∙◌, [], length-take, zero, ◌%◌, inr, length-drop, refl, ◌/◌, ◌-◌,
  Option, ltb, false, ok, true, Bool-cases, err, subst, and_then-eq-ok, leb, overflow, ltb→lt,
  lt→ltb, none,
}

-- The script with two bytes put in
put_two : ℕ → ℕ → ℕ → Bytes → Bytes
put_two place low high script = take place script ++ (low ∷ high ∷ drop (place + 2) script)

length-put_two :
    (place low high : ℕ) (script : Bytes)
    → place + 2 ≤ length script
    → length (put_two place low high script) ≡ length script
unfolding put_two
length-put_two place low high script h = omega (
  arith,
  length-append {0} (take place script) (low ∷ high ∷ drop (place + 2) script),
  length-take place script (omega arith),
  length-drop (place + 2) script,
)

get_or-append_right :
    (raw more : Bytes) (i : ℕ) → get_or (raw ++ more) (length raw + i) 0 ≡ get_or more i 0
get_or-append_right [] more i = ap (λ k. get_or more k 0) (omega arith)
get_or-append_right (b ∷ raw) more i =
    let e : suc (length raw) + i ≡ suc (length raw + i) = omega arith in
    rw e (get_or-append_right raw more i)

get_or-append_left :
    (raw more : Bytes) (i : ℕ) → i < length raw → get_or (raw ++ more) i 0 ≡ get_or raw i 0
get_or-append_left [] more i h = absurd (omega arith)
get_or-append_left (b ∷ raw) more zero h = refl
get_or-append_left (b ∷ raw) more (suc i) h = get_or-append_left raw more i (omega arith)

get_or-take : (n i : ℕ) (raw : Bytes) → i < n → get_or (take n raw) i 0 ≡ get_or raw i 0
get_or-take zero i raw h = absurd (omega arith)
get_or-take (suc n) i [] h = refl
get_or-take (suc n) zero (b ∷ raw) h = refl
get_or-take (suc n) (suc i) (b ∷ raw) h = get_or-take n i raw (omega arith)

get_or-drop : (n i : ℕ) (raw : Bytes) → get_or (drop n raw) i 0 ≡ get_or raw (n + i) 0
get_or-drop zero i raw = ap (λ k. get_or raw k 0) (omega arith)
get_or-drop (suc n) i [] = refl
get_or-drop (suc n) i (b ∷ raw) =
    let e : suc n + i ≡ suc (n + i) = omega arith in rw e (get_or-drop n i raw)

module _ (place low high : ℕ) (script : Bytes) (fits : place + 2 ≤ length script) where
  from_place :
      (i : ℕ)
      → get_or (put_two place low high script) (place + i) 0
        ≡ get_or (low ∷ high ∷ drop (place + 2) script) i 0
  unfolding put_two
  from_place i =
      ap (λ k. get_or (put_two place low high script) (k + i) 0)
        (sym (length-take place script (omega arith)))
      ∙ get_or-append_right (take place script) (low ∷ high ∷ drop (place + 2) script) i

  put_two-low : get_or (put_two place low high script) place 0 ≡ low
  put_two-low = ap (λ k. get_or (put_two place low high script) k 0) (omega arith) ∙ from_place 0

  put_two-high : get_or (put_two place low high script) (place + 1) 0 ≡ high
  put_two-high = from_place 1

  put_two-other :
      (i : ℕ)
      → (i < place) ⊎ (place + 2 ≤ i)
      → get_or (put_two place low high script) i 0 ≡ get_or script i 0
  put_two-other i (inl before) =
      unfold put_two in
      get_or-append_left (take place script) _ i
        (omega (arith, length-take place script (omega arith)))
      ∙ get_or-take place i script before
  put_two-other i (inr behind) =
      let k = i - (place + 2) in
      let e : i ≡ place + suc (suc k) = omega arith in
      let e' : place + 2 + k ≡ i = omega arith in
      ap (λ m. get_or (put_two place low high script) m 0) e
      ∙ from_place (suc (suc k))
      ∙ get_or-drop (place + 2) k script
      ∙ ap (λ m. get_or script m 0) e'

-- A byte that is none of a jump's two
abbrev pub Beside : ℕ → Jump → Type 0
Beside i j = (i < j.place) ⊎ (j.place + 2 ≤ i)

module _ (lower : Text → Text) (labels : List LabelLocation) where
  -- The two bytes of a jump are the location of its label, the low byte first.
  abbrev pub HasTarget : Bytes → Jump → Type 0
  HasTarget script j =
      (target : ℕ) × (find_label (lower j.label) labels ≡ some target)
      × (target < 65536)
      × (get_or script j.place 0 ≡ target % 256)
      × (get_or script (j.place + 1) 0 ≡ target / 256)

  pub record Patches (jumps : List Jump) (before after : Bytes) : Type 0 where
    pub same_length : length after ≡ length before
    pub targets : All (HasTarget after) jumps
    pub others : (i : ℕ) → All (Beside i) jumps → get_or after i 0 ≡ get_or before i 0

patch-eq :
    (target place : ℕ) (script : Bytes)
    → ltb target 65536 ≡ true
    → patch place target script ≡ ok (put_two place (target % 256) (target / 256) script)
unfolding patch put_two to_le
patch-eq target place script h =
    let high : target / 256 % 256 ≡ target / 256 = ground arith in rw (h, high)

patch-large :
    (target place : ℕ) (script : Bytes)
    → ltb target 65536 ≡ false
    → patch place target script ≡ err overflow
unfolding patch
patch-large target place script h = rw h

patch_to-eq-ok :
    (result : Option ℕ) (place : ℕ) (before after : Bytes)
    → place + 2 ≤ length before
    → patch_to result place before ≡ ok after
    → (target : ℕ) × (result ≡ some target)
      × (target < 65536)
      × (after ≡ put_two place (target % 256) (target / 256) before)
unfolding patch_to
patch_to-eq-ok none place before after fits h = absurd cc
patch_to-eq-ok (some target) place before after fits h = elim (Bool-cases (ltb target 65536)) [
  | inl small ↦
      let room : leb (length before) (place + 1) ≡ false = ground arith in
      let h' = rw (room, patch-eq target place before small) at h in
      (target, refl, ltb→lt _ _ small, cc)
  | inr large ↦
      let room : leb (length before) (place + 1) ≡ false = ground arith in
      let h' = rw (room, patch-large target place before large) at h in absurd cc
]

Spaced-Beside :
    (i low size : ℕ) (jumps : List Jump) → i < low → Spaced low size jumps → All (Beside i) jumps
Spaced-Beside i low size [] h s = tt
Spaced-Beside i low size (j ∷ rest) h (first, s) =
    (inl (omega arith), Spaced-Beside i (j.place + 2) size rest (omega arith) s)

module _ (lower : Text → Text) (labels : List LabelLocation) where
  pub patch_jumps-Patches :
      (low : ℕ) (jumps : List Jump) (before after : Bytes)
      → Spaced low (length before) jumps
      → patch_jumps lower labels jumps before ≡ ok after
      → Patches lower labels jumps before after
  unfolding patch_jumps patch_jump
  patch_jumps-Patches low [] before after s h =
      let same_bytes : before ≡ after = cc in
      subst (Patches lower labels [] before) same_bytes
        (record { same_length = refl; targets = tt; others = λ i beside. refl })
  patch_jumps-Patches low (j ∷ rest) before after (first, s) h =
      let fits : j.place + 2 ≤ length before = Spaced-le (j.place + 2) (length before) rest s in
      let (mid, e, e') = and_then-eq-ok (patch_jump lower labels j before) _ h in
      let (target, known, small, put) = patch_to-eq-ok _ j.place before mid fits e in
      let l = target % 256 in
      let u = target / 256 in
      let length-mid : length mid ≡ length before =
        rw put (length-put_two j.place l u before fits) in
      let later = patch_jumps-Patches (j.place + 2) rest mid after (rw length-mid s) e' in
      record {
        same_length = later.same_length ∙ length-mid;
        targets = (
          (
            target,
            known,
            small,
            later.others j.place (Spaced-Beside j.place (j.place + 2) _ rest (omega arith) s)
                ∙ rw put (put_two-low j.place l u before fits),
            later.others (j.place + 1)
                  (Spaced-Beside (j.place + 1) (j.place + 2) _ rest (omega arith) s)
                ∙ rw put (put_two-high j.place l u before fits),
          ),
          later.targets,
        );
        others = λ i (beside, others).
            later.others i others ∙ rw put (put_two-other j.place l u before fits i beside);
      }

  -- A jump whose label is set where two bytes can say
  abbrev pub Resolves : Jump → Type 0
  Resolves j = (target : ℕ) × (find_label (lower j.label) labels ≡ some target) × (target < 65536)

  pub patch_jumps-total :
      (low : ℕ) (jumps : List Jump) (before : Bytes)
      → Spaced low (length before) jumps
      → All Resolves jumps
      → (after : Bytes) × (patch_jumps lower labels jumps before ≡ ok after)
  unfolding patch_jumps patch_jump patch_to
  patch_jumps-total low [] before s h = (before, refl)
  patch_jumps-total low (j ∷ rest) before (first, s) ((target, known, small), hs) =
      let fits : j.place + 2 ≤ length before = Spaced-le (j.place + 2) (length before) rest s in
      let mid = put_two j.place (target % 256) (target / 256) before in
      let length-mid : length mid ≡ length before = length-put_two j.place _ _ before fits in
      let (after, e) = patch_jumps-total (j.place + 2) rest mid (rw length-mid s) hs in
      let room : leb (length before) (j.place + 1) ≡ false = ground arith in
      (after, rw (known, room, patch-eq target j.place before (lt→ltb _ _ small)) e)
