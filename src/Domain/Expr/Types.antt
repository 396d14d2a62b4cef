-- ===== src/Domain/Expr/Types.antt =====
-- Types of the condition language and the forms of their values.
use aura_launcher.Common.{◌≡◌, refl, String}
use aura_launcher.Domain.Expr.{Std, Val, Value, Values, null, bool, number, string, array, object}

pub data Ty : Type 0 where
  t_null t_bool t_number t_string t_array t_object : Ty

abbrev pub ty : {F : Type 0} → Value F → Ty
ty null = t_null
ty (bool b) = t_bool
ty (number n) = t_number
ty (string s) = t_string
ty (array a) = t_array
ty (object o) = t_object

-- Two types that `<`, `<=`, `>` and `>=` compare.
pub data Comparable : Ty → Ty → Type 0 where
  numbers : Comparable t_number t_number
  strings : Comparable t_string t_string

-- Two types that `contains` takes.
pub data Searchable : Ty → Ty → Type 0 where
  in_string : Searchable t_string t_string
  in_array : (τ : Ty) → Searchable t_array τ
  in_null : (τ : Ty) → Searchable t_null τ
  of_null : (τ : Ty) → Searchable τ t_null

module _ (S : Std) where
  -- A value of a type has that type's form.
  pub number_form : (v : Val S) → ty v ≡ t_number → (n : S.Float) × (v ≡ number n)
  number_form (number n) h = (n, refl)
  number_form null h = cc
  number_form (bool b) h = cc
  number_form (string s) h = cc
  number_form (array l) h = cc
  number_form (object o) h = cc

  pub string_form : (v : Val S) → ty v ≡ t_string → (s : String) × (v ≡ string s)
  string_form (string s) h = (s, refl)
  string_form null h = cc
  string_form (bool b) h = cc
  string_form (number n) h = cc
  string_form (array l) h = cc
  string_form (object o) h = cc

  pub array_form : (v : Val S) → ty v ≡ t_array → (l : Values S.Float) × (v ≡ array l)
  array_form (array l) h = (l, refl)
  array_form null h = cc
  array_form (bool b) h = cc
  array_form (number n) h = cc
  array_form (string s) h = cc
  array_form (object o) h = cc

  pub null_form : (v : Val S) → ty v ≡ t_null → v ≡ null
  null_form null h = refl
  null_form (bool b) h = cc
  null_form (number n) h = cc
  null_form (string s) h = cc
  null_form (array l) h = cc
  null_form (object o) h = cc
