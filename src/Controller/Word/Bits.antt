-- ===== src/Controller/Word/Bits.antt =====
-- The word of bits is the integer of the source, and the operations on it are the bit operations.
use Prim.Native.Nat.{bit_and, bit_or}
use mec_measurements.Prelude.{
  ℕ, ◌+◌, ◌*◌, ◌≡◌, refl, Bool, true, false, not, ◌&&◌, eqb, if◌then◌else◌, arith, List, [], ◌∷◌,
  map,
}
use mec_measurements.Controller.Word.{
  Word, init_state, running_state, pre_migrate_state, pre_migrated_state, migrate_state,
  handover_state, handovered_state, ◌∪◌, meets, is_running,
}

abbrev bit : Bool → ℕ
bit b = if b then 1 else 0

-- The integer that the source stores.
pub code : Word → ℕ
code w =
    bit w.running
    + 2 * bit w.pre_migrate
    + 4 * bit w.pre_migrated
    + 8 * bit w.migrate
    + 16 * bit w.handover
    + 32 * bit w.handovered

-- A test of every word, by evaluation.
every : (Bool → Bool) → Bool
every p = p true && p false

every_sound : (p : Bool → Bool) → every p ≡ true → (b : Bool) → p b ≡ true
unfolding every
every_sound p h true = ground arith
every_sound p h false = ground arith

abbrev word : Bool → Bool → Bool → Bool → Bool → Bool → Word
word a b c d e f = record {
  running = a;
  pre_migrate = b;
  pre_migrated = c;
  migrate = d;
  handover = e;
  handovered = f;
}

every_word : (Word → Bool) → Bool
unfolding every
every_word p =
    every λ a. every λ b. every λ c. every λ d. every λ e. every λ f. p (word a b c d e f)

every_word_sound : (p : Word → Bool) → every_word p ≡ true → (w : Word) → p w ≡ true
unfolding every_word
every_word_sound p h w =
    let open_a =
      every_sound (λ a. every λ b. every λ c. every λ d. every λ e. every λ f. p (word a b c d e f))
        h w.running in
    let open_b =
      every_sound (λ b. every λ c. every λ d. every λ e. every λ f. p (word w.running b c d e f))
        open_a w.pre_migrate in
    let open_c =
      every_sound (λ c. every λ d. every λ e. every λ f. p (word w.running w.pre_migrate c d e f))
        open_b w.pre_migrated in
    let open_d =
      every_sound (λ d. every λ e. every λ f. p (word w.running w.pre_migrate w.pre_migrated d e f))
        open_c w.migrate in
    let open_e =
      every_sound (λ e. every λ f. p (word w.running w.pre_migrate w.pre_migrated w.migrate e f))
        open_d w.handover in
    every_sound (λ f. p (word w.running w.pre_migrate w.pre_migrated w.migrate w.handover f)) open_e
      w.handovered

iffb : Bool → Bool → Bool
iffb true b = b
iffb false b = not b

and_parts : (a b c : Bool) → (a && b && c) ≡ true → (a ≡ true) × (b ≡ true) × (c ≡ true)
and_parts a b c h = ground arith

eqb→eq : (m n : ℕ) → eqb m n ≡ true → m ≡ n
eqb→eq m n h = ground arith

iffb→eq : (a b : Bool) → iffb a b ≡ true → a ≡ b
unfolding iffb
iffb→eq a b h = ground arith

-- The three operations agree with those on integers, as a test.
agree : Word → Word → Bool
unfolding code
agree v w =
    eqb (code (v ∪ w)) (bit_or (code v) (code w))
    && iffb (meets v w) (not (eqb (bit_and (code v) (code w)) 0))
    && iffb (is_running v) (eqb (code v) (code running_state))

agree_table : every_word (λ v. every_word (agree v)) ≡ true
unfolding every_word agree iffb
agree_table = refl

agree-eq :
    (v w : Word)
    → agree v w ≡ true
    → (code (v ∪ w) ≡ bit_or (code v) (code w))
      × (meets v w ≡ not (eqb (bit_and (code v) (code w)) 0))
      × (is_running v ≡ eqb (code v) (code running_state))
unfolding agree
agree-eq v w h =
    let (same, meet, run) = and_parts _ _ _ h in
    (eqb→eq _ _ same, iffb→eq _ _ meet, iffb→eq _ _ run)

agreed :
    (v w : Word)
    → (code (v ∪ w) ≡ bit_or (code v) (code w))
      × (meets v w ≡ not (eqb (bit_and (code v) (code w)) 0))
      × (is_running v ≡ eqb (code v) (code running_state))
agreed v w =
    agree-eq v w
      (every_word_sound (agree v) (every_word_sound (λ u. every_word (agree u)) agree_table v) w)

-- The constants of the source, in its order.
abbrev pub constants : List Word
constants =
    init_state ∷ running_state ∷ pre_migrate_state ∷ pre_migrated_state ∷ migrate_state
    ∷ handover_state ∷ handovered_state ∷ []

-- The operations on words are those of the source on integers: union is `|`, `meets` is the truth
-- value of `&`, and `is_running` is the comparison with RUNNING_STATE. The constants have the
-- values 0, 1, 2, 4, 8, 16 and 32.
pub code_lem :
    (v w : Word)
    → (code (v ∪ w) ≡ bit_or (code v) (code w))
      × (meets v w ≡ not (eqb (bit_and (code v) (code w)) 0))
      × (is_running v ≡ eqb (code v) (code running_state))
      × (map code constants ≡ 0 ∷ 1 ∷ 2 ∷ 4 ∷ 8 ∷ 16 ∷ 32 ∷ [])
unfolding code
code_lem v w = let (union, meet, run) = agreed v w in (union, meet, run, refl)
