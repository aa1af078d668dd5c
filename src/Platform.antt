-- ===== src/Platform.antt =====
-- What the program takes from code that is not in the repository: Python's floats, and the tables
-- of the central database, which SQLAlchemy keeps. The model is a function of them.
use mec_measurements.Prelude.{
  ℕ, String, ◌≡◌, Bool, true, Option, none, some, List, any, ◌==◌, if◌then◌else◌,
}

pub record Platform : Type 1 where
  -- floats
  pub Real : Type 0
  pub of_ℕ : ℕ → Real
  pub tenth : Real
  pub plus : Real → Real → Real
  pub minus : Real → Real → Real
  pub times : Real → Real → Real
  pub over : Real → Real → Real
  pub lt : Real → Real → Bool
  -- the mapped classes: rows by primary key
  pub Table : Type 0 → Type 0
  -- session.query(A).filter(A.name == key).first()
  pub first : {A : Type 0} → Table A → String → Option A
  -- session.query(A).all()
  pub rows : {A : Type 0} → Table A → List A
  -- session.add of a new row, or an assignment to attributes of the row that is there
  pub save : {A : Type 0} → Table A → String → A → Table A
  -- session.delete
  pub delete : {A : Type 0} → Table A → String → Table A
  -- what SQLAlchemy documents of a session with autoflush: a query sees what was written before
  pub first-save :
      {A : Type 0} (t : Table A) (k : String) (a : A) (j : String)
      → first (save t k a) j ≡ (if k == j then some a else first t j)
  pub first-delete :
      {A : Type 0} (t : Table A) (k j : String)
      → first (delete t k) j ≡ (if k == j then none else first t j)
  -- and that the query of all rows gives each row that a query by its key gives
  pub rows-first :
      {A : Type 0} (t : Table A) (k : String) (a : A) (test : A → Bool)
      → first t k ≡ some a
      → test a ≡ true
      → any test (rows t) ≡ true

abbrev pub Real : ⦃p : Platform⦄ → Type 0
Real ⦃p⦄ = p.Real

abbrev pub Table : ⦃p : Platform⦄ → Type 0 → Type 0
Table ⦃p⦄ = p.Table

module _ ⦃p : Platform⦄ where
  open p use {of_ℕ, tenth, plus, minus, times, over, lt}

  abbrev pub zero_real : Real
  zero_real = of_ℕ 0

  -- 1.1 * x
  abbrev pub times_1_1 : Real → Real
  times_1_1 x = times (plus (of_ℕ 1) tenth) x
