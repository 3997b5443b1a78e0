-- ===== src/Admin/Valid.antt =====
-- admin.rs: which settings can be stored.
use crosspaste_server.Admin.Settings.{is_allowed, is_switch, is_within, validate_settings}
use crosspaste_server.Database.Logs.{parse_usize}
use crosspaste_server.Prelude.{
  Bool, Bool-cases, In, List, Result, String, [], all, any, ap, arith, err, false, if◌then◌else◌,
  inl, inr, is_none_or, nat_Comparable, none, not, ok, pair_Comparable, refl, some,
  string_Comparable, subst, sym, true, ℕ, ◌&&◌, ◌==◌, ◌||◌, ◌∙◌, ◌∷◌, ◌≡◌,
}
use crosspaste_server.Prelude.Int.{int_Comparable}
use crosspaste_server.Prelude.Map.{Map, lookup, same_refl}
use crosspaste_server.Prelude.Text.{codes_Comparable}

-- A setting that is known, with a value of its kind.
unfoldable pub is_valid : String × String → Bool
is_valid (key, value) =
    is_allowed key
    && (if key == "max_file_size_mb"
        then is_within 1 102400 (parse_usize value)
        else if key == "log_retention_count"
        then is_within 1000 1_000_000 (parse_usize value)
        else (value == "true") || (value == "false"))

-- No name stands twice, as in any map.
abbrev pub IsMap : Map String String → Type 0
IsMap [] = Unit
IsMap ((key, value) ∷ m) = (lookup key m ≡ none) × IsMap m

any-false :
    {A : Type 0} (p : A → Bool) (xs : List A) (x : A) → any p xs ≡ false → In x xs → p x ≡ false
any-false p [] x h i = elim i [ ]
any-false p (y ∷ xs) x h (inl e) = rw (← e) (ground arith)
any-false p (y ∷ xs) x h (inr i) = any-false p xs x (ground arith) i

all-true :
    {A : Type 0} (p : A → Bool) (xs : List A) (x : A) → all p xs ≡ true → In x xs → p x ≡ true
all-true p [] x h i = elim i [ ]
all-true p (y ∷ xs) x h (inl e) = rw (← e) (ground arith)
all-true p (y ∷ xs) x h (inr i) = all-true p xs x (ground arith) i

lookup-In :
    (key value : String) (m : Map String String)
    → IsMap m
    → In (key, value) m
    → lookup key m ≡ some value
unfolding lookup
lookup-In key value [] d i = elim i [ ]
lookup-In key value ((k, v) ∷ m) d (inl e) =
    rw (ap (λ (p : String × String). p.0) e, same_refl key)
      (ap some (ap (λ (p : String × String). p.1) e))
lookup-In key value ((k, v) ∷ m) d (inr i) = elim (Bool-cases (k == key)) [
  | inr other ↦ rw other (lookup-In key value m d.1 i)
  | inl same ↦
      let e : k ≡ key = (string_Comparable.same_iff k key).0 same in
      absurd (cc (lookup-In key value m d.1 i, ap (λ j. lookup j m) e, d.0))
]

all-In :
    {A : Type 0} (p : A → Bool) (xs : List A) → ((x : A) → In x xs → p x ≡ true) → all p xs ≡ true
all-In p [] h = refl
all-In p (x ∷ xs) h = ground (arith, h x (inl refl), all-In p xs (λ y i. h y (inr i)))

abbrev max_size_ok : Map String String → Bool
max_size_ok m =
    is_none_or (λ value. is_within 1 102400 (parse_usize value)) (lookup "max_file_size_mb" m)

abbrev retention_ok : Map String String → Bool
retention_ok m =
    is_none_or (λ value. is_within 1000 1_000_000 (parse_usize value))
      (lookup "log_retention_count" m)

-- What the checks find, when none of them fails.
record IsChecked (m : Map String String) : Type 0 where
  known_names : any (λ (key, value). not (is_allowed key)) m ≡ false
  max_size : max_size_ok m ≡ true
  retention : retention_ok m ≡ true
  switches : all is_switch m ≡ true

validated : (m : Map String String) → validate_settings m ≡ ok tt → IsChecked m
unfolding validate_settings
validated m =
    go (any (λ (key, value). not (is_allowed key)) m) (max_size_ok m) (retention_ok m)
      (all is_switch m) refl refl refl refl
  where
    verdict : (a b c s : Bool) → Result String Unit
    verdict a b c s =
        if a
        then err "包含未知设置项"
        else if not b
        then err "最大文件大小必须在 1 到 102400 MB 之间"
        else if not c
        then err "日志存储上限必须在 1000 到 1000000 条之间"
        else if s
        then ok tt
        else err "开关值必须为 true 或 false"

    go :
        (a b c s : Bool)
        → any (λ (key, value). not (is_allowed key)) m ≡ a
        → max_size_ok m ≡ b
        → retention_ok m ≡ c
        → all is_switch m ≡ s
        → verdict a b c s ≡ ok tt
        → IsChecked m
    go true b c s e f g i h = cc
    go false false c s e f g i h = cc
    go false true false s e f g i h = cc
    go false true true false e f g i h = cc
    go false true true true e f g i h = record {
      known_names = e;
      max_size = f;
      retention = g;
      switches = i;
    }

within_of :
    (key value name : String) (low high : ℕ) (m : Map String String)
    → lookup key m ≡ some value
    → (key == name) ≡ true
    → is_none_or (λ v. is_within low high (parse_usize v)) (lookup name m) ≡ true
    → is_within low high (parse_usize value) ≡ true
within_of key value name low high m found e h =
    let there : lookup name m ≡ some value =
      ap (λ j. lookup j m) (sym ((string_Comparable.same_iff key name).0 e)) ∙ found in
    subst (λ o. is_none_or (λ v. is_within low high (parse_usize v)) o ≡ true) there h

valid_of :
    (key value : String)
    → not (is_allowed key) ≡ false
    → ((key == "max_file_size_mb") ≡ true → is_within 1 102400 (parse_usize value) ≡ true)
    → ((key == "log_retention_count") ≡ true → is_within 1000 1_000_000 (parse_usize value) ≡ true)
    → is_switch (key, value) ≡ true
    → is_valid (key, value) ≡ true
unfolding is_valid
valid_of key value a m l s =
    go (is_allowed key) (key == "max_file_size_mb") (key == "log_retention_count") a refl refl s
  where
    go :
        (ok_name is_max is_log : Bool)
        → not ok_name ≡ false
        → (key == "max_file_size_mb") ≡ is_max
        → (key == "log_retention_count") ≡ is_log
        → ((is_max || is_log) || (value == "true") || (value == "false")) ≡ true
        → (ok_name
            && (if is_max
                then is_within 1 102400 (parse_usize value)
                else if is_log
                then is_within 1000 1_000_000 (parse_usize value)
                else (value == "true") || (value == "false")))
          ≡ true
    go false is_max is_log a e f s = cc
    go true true is_log a e f s = m e
    go true false true a e f s = l f
    go true false false a e f s = s

-- Settings that pass the checks are all valid.
pub all-validate_settings :
    (m : Map String String) → IsMap m → validate_settings m ≡ ok tt → all is_valid m ≡ true
all-validate_settings m d h = all-In is_valid m (λ (key, value) i. each key value i)
  where
    w : IsChecked m
    w = validated m h

    each : (key value : String) → In (key, value) m → is_valid (key, value) ≡ true
    each key value i =
        valid_of key value (any-false (λ (k, v). not (is_allowed k)) m (key, value) w.known_names i)
          (λ e.
            within_of key value "max_file_size_mb" 1 102400 m (lookup-In key value m d i) e
              w.max_size)
          (λ e.
            within_of key value "log_retention_count" 1000 1_000_000 m (lookup-In key value m d i) e
              w.retention)
          (all-true is_switch m (key, value) w.switches i)
