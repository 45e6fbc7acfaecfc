-- ===== src/Log/Level.antt =====
-- src/log.c: the levels of log messages, and their names.
use daemonproxy.Common.{
  ℕ, zero, suc, ◌+◌, ◌-◌, Bool, true, not, ◌&&◌, Option, some, none, List, [], ◌∷◌, Bytes, codes,
  get_elem?, if◌then◌else◌, ℤ, pos, negsuc, leb_int, ◌≡◌, refl, arith, ◌↔◌, sym, subst, ◌∙◌,
  Bool-cases, inl, inr,
}
use daemonproxy.Strseg.Cmp.{eq_bytes, eq_bytes_iff}

abbrev pub log_level_fatal : ℤ
log_level_fatal = pos 3

abbrev pub log_level_debug : ℤ
log_level_debug = negsuc 0

abbrev pub log_level_error : ℤ
log_level_error = pos 2

abbrev pub log_filter_none : ℤ
log_filter_none = negsuc 2

abbrev pub log_level_names : List Bytes
log_level_names =
    codes "none"
    ∷ codes "trace"
    ∷ codes "debug"
    ∷ codes "info"
    ∷ codes "warning"
    ∷ codes "error"
    ∷ codes "fatal"
    ∷ []

-- `level - LOG_FILTER_NONE`, of a level not below it
abbrev pub level_index : ℤ → ℕ
level_index (pos n) = n + 3
level_index (negsuc n) = 2 - n

-- `LOG_FILTER_NONE + i`
abbrev pub level_of_index : ℕ → ℤ
level_of_index zero = negsuc 2
level_of_index (suc zero) = negsuc 1
level_of_index (suc (suc zero)) = negsuc 0
level_of_index (suc (suc (suc n))) = pos n

abbrev pub is_level : ℤ → Bool
is_level level = leb_int log_filter_none level && leb_int level log_level_fatal

-- The entry of the array; every level has one.
abbrev entry : Option Bytes → Bytes
entry none = []
entry (some name) = name

unfoldable pub level_name : ℤ → Bytes
level_name level =
    if is_level level
    then entry (get_elem? log_level_names (level_index level))
    else codes "unknown"

-- The loop over the names from the `i`-th on.
unfoldable pub level_from : Bytes → ℕ → List Bytes → Option ℤ
unfolding eq_bytes
level_from name i [] = none
level_from name i (n ∷ ns) =
    let later = level_from name (suc i) ns in
    if eq_bytes name n then some (level_of_index i) else later

-- `log_level_by_name`, by the level that it stores
abbrev pub level_by_name : Bytes → Option ℤ
level_by_name name = level_from name 0 log_level_names

-- What `log_set_filter` stores.
abbrev pub clamp_level : ℤ → ℤ
clamp_level value =
    if not (leb_int value log_level_fatal)
    then log_level_fatal
    else if not (leb_int log_filter_none value)
    then log_filter_none
    else value

-- A level is one of seven.
pub data IsName : Bytes → ℤ → Type 0 where
  none_name : IsName (codes "none") (negsuc 2)
  trace_name : IsName (codes "trace") (negsuc 1)
  debug_name : IsName (codes "debug") (negsuc 0)
  info_name : IsName (codes "info") (pos 0)
  warning_name : IsName (codes "warning") (pos 1)
  error_name : IsName (codes "error") (pos 2)
  fatal_name : IsName (codes "fatal") (pos 3)

pub level-IsName : (level : ℤ) → is_level level ≡ true → IsName (level_name level) level
unfolding level_name
level-IsName (pos zero) h = info_name
level-IsName (pos (suc zero)) h = warning_name
level-IsName (pos (suc (suc zero))) h = error_name
level-IsName (pos (suc (suc (suc zero)))) h = fatal_name
level-IsName (pos (suc (suc (suc (suc n))))) h = ground arith
level-IsName (negsuc zero) h = debug_name
level-IsName (negsuc (suc zero)) h = trace_name
level-IsName (negsuc (suc (suc zero))) h = none_name
level-IsName (negsuc (suc (suc (suc n)))) h = ground arith

level_by_name-IsName :
    {name : Bytes} {level : ℤ} → IsName name level → level_by_name name ≡ some level
unfolding level_from eq_bytes
level_by_name-IsName none_name = refl
level_by_name-IsName trace_name = refl
level_by_name-IsName debug_name = refl
level_by_name-IsName info_name = refl
level_by_name-IsName warning_name = refl
level_by_name-IsName error_name = refl
level_by_name-IsName fatal_name = refl

-- What a search of the names answers.
Answers : Bytes → Option ℤ → Type 0
Answers name none = Unit
Answers name (some level) = (is_level level ≡ true) × (level_name level ≡ name)

-- The names from the `i`-th on are those of the levels.
AreNames : ℕ → List Bytes → Type 0
AreNames i [] = Unit
AreNames i (n ∷ ns) =
    ((is_level (level_of_index i) ≡ true) × (level_name (level_of_index i) ≡ n))
    × AreNames (suc i) ns

level_from-Answers :
    (name : Bytes) (i : ℕ) (ns : List Bytes) → AreNames i ns → Answers name (level_from name i ns)
unfolding level_from AreNames Answers
level_from-Answers name i [] h = tt
level_from-Answers name i (n ∷ ns) h = elim (Bool-cases (eq_bytes name n)) [
  | inl e ↦ rw e (h.0.0, h.0.1 ∙ sym ((eq_bytes_iff name n).0 e))
  | inr e ↦ rw e (level_from-Answers name (suc i) ns h.1)
]

all_names : AreNames 0 log_level_names
unfolding AreNames level_name
all_names = (
  (refl, refl),
  (
    (refl, refl),
    ((refl, refl), ((refl, refl), ((refl, refl), ((refl, refl), ((refl, refl), tt))))),
  ),
)

-- `log_level_by_name` knows just the names that `log_level_name` gives to the levels from none to fatal,
-- and answers with their levels.
pub level_by_name_iff :
    (name : Bytes) (level : ℤ)
    → (level_by_name name ≡ some level) ↔ ((is_level level ≡ true) × (level_name level ≡ name))
unfolding Answers
level_by_name_iff name level = (
  λ e. subst (Answers name) e (level_from-Answers name 0 log_level_names all_names),
  λ h. level_by_name-IsName (subst (λ n. IsName n level) h.1 (level-IsName level h.0)),
)

-- `log_set_filter` stores a level from none to fatal: the value itself if it is one, else the nearer end.
pub clamp_level-is_level :
    (value : ℤ)
    → (is_level (clamp_level value) ≡ true)
      × (is_level value ≡ true → clamp_level value ≡ value)
      × (leb_int value log_filter_none ≡ true → clamp_level value ≡ log_filter_none)
      × (leb_int log_level_fatal value ≡ true → clamp_level value ≡ log_level_fatal)
clamp_level-is_level (pos n) = ground arith
clamp_level-is_level (negsuc n) = ground arith
