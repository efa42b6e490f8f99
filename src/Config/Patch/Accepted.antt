-- ===== src/Config/Patch/Accepted.antt =====
-- src/config.rs: which values `patch` accepts.
use codex_acp_v.Config.Patch.Shown.{all-options, shows}
use codex_acp_v.Config.Options.{
  options, sandbox_presets, effort_option, model_option, tier_option, approval_option, optional,
  sandbox_option, mode_option, select_option, effort_choices,
}
use codex_acp_v.Json.{Value}
use codex_acp_v.Config.{
  ConfigOption, ConfigError, SelectOption, id_value, unknown_option, unsupported_value,
}
use codex_acp_v.Config.Patch.{patch_of, sandbox_policy, offers, patch, value_id}
use codex_acp_v.Server.{Configuration}
use codex_acp_v.Common.{
  Result, String, Option, Bool, find, ◌==◌, is_some_and, contains, if◌then◌else◌, List, false, ◌≡◌,
  any, true, not, or_fail, ◌>>=◌, ◌&&◌, ensure, ◌>>◌, some, arith, none, refl, is_none_or, ◌∷◌, all,
  [], Bool-cases, inl, ◌++◌, sym, some_injective, inr, Has, ◌∙◌, ◌||◌, eq_iff, Option-cases,
  and_iff, is_some, is_ok,
}

-- The encoding of an option lists its choices, each with its value.
abbrev pub EncodesChoices : (ConfigOption → Value) → Type 0
EncodesChoices encode =
    (option : ConfigOption) (value : String)
    → offers (encode option) value ≡ any (λ choice. choice.value == value) option.choices

abbrev pub shown_option : Configuration → String → Option ConfigOption
shown_option c id = find (λ option. option.config_id == id) (options c)

-- What only the backend sets is shown, and cannot be chosen.
abbrev pub is_changeable : String → String → Bool
is_changeable id value =
    if id == "sandbox"
    then contains sandbox_presets value
    else not (id == "mode" && value == "backend")

abbrev pub offered : Configuration → String → String → Bool
offered c id value =
    is_some_and (shown_option c id) (λ option. any (λ choice. choice.value == value) option.choices)

is_ok_guard :
    {A : Type 0} (found : Option A) (test : A → Bool) (absent bad : ConfigError)
    (rest : Result ConfigError (List (String × Value)))
    → is_ok (or_fail found absent >>= λ a. ensure (test a) bad >> rest)
      ≡ (is_some_and found test && is_ok rest)
is_ok_guard none test absent bad rest = refl
is_ok_guard (some a) test absent bad rest = ground arith

find-all :
    {A : Type 0} (p q : A → Bool) (xs : List A) (x : A)
    → find p xs ≡ some x
    → all q xs ≡ true
    → (p x && q x) ≡ true
find-all p q [] x h h' = absurd (ground arith)
find-all p q (y ∷ ys) x h h' =
    let later = find-all p q ys x in
    elim (Bool-cases (p y)) [
      | inl e ↦ rw (sym (some_injective (rw (e, find) at h)), e) (ground arith)
      | inr e ↦ later (rw (e, find) at h) (ground arith)
    ]

-- The option that is found, if all options of its id show the value, shows it.
pub find-current :
    (shown : List ConfigOption) (id value : String) (option : ConfigOption)
    → find (λ o. o.config_id == id) shown ≡ some option
    → all (shows id value) shown ≡ true
    → any (λ o. o.config_id == id && o.current_value == value) shown ≡ true
find-current [] id value option h h' = absurd (ground arith)
find-current (first ∷ rest) id value option h h' = elim (Bool-cases (first.config_id == id)) [
  | inl e ↦ ground arith
  | inr e ↦ rw e (find-current rest id value option (rw (e, find) at h) ((and_iff _ _).0 h').1)
]

abbrev option_ids : List String
option_ids = "model" ∷ "effort" ∷ "serviceTier" ∷ "approvalPolicy" ∷ "sandbox" ∷ "mode" ∷ []

effort_known :
    (c : Configuration) (choices : List SelectOption)
    → is_none_or (effort_option c choices) (λ option. contains option_ids option.config_id) ≡ true
unfolding effort_option contains
effort_known c [] = refl
effort_known c (first ∷ more) = refl

options_known :
    (c : Configuration) → all (λ option. contains option_ids option.config_id) (options c) ≡ true
unfolding contains model_option tier_option approval_option sandbox_option mode_option select_option
options_known c =
    all-options c (λ option. contains option_ids option.config_id) refl
      (effort_known c (effort_choices c)) refl (ground arith) refl refl

find-optional :
    (o : Option ConfigOption) (rest : List ConfigOption) (id : String)
    → is_none_or o (λ option. not (option.config_id == id)) ≡ true
    → find (λ option. option.config_id == id) (optional o ++ rest)
      ≡ find (λ option. option.config_id == id) rest
find-optional none rest id h = refl
find-optional (some option) rest id h = ground arith

effort_not_mode :
    (c : Configuration) (choices : List SelectOption)
    → is_none_or (effort_option c choices) (λ option. not (option.config_id == "mode")) ≡ true
unfolding effort_option
effort_not_mode c [] = refl
effort_not_mode c (first ∷ more) = refl

shown_mode : (c : Configuration) → shown_option c "mode" ≡ some (mode_option c)
unfolding options model_option tier_option approval_option sandbox_option mode_option select_option
shown_mode c =
    let last = sandbox_option c ∷ mode_option c ∷ [] in
    let later = tier_option c ∷ (optional (approval_option c) ++ last) in
    find-optional (effort_option c (effort_choices c)) later "mode"
      (effort_not_mode c (effort_choices c))
    ∙ find-optional (approval_option c) last "mode" (ground arith)

mode_offered :
    (c : Configuration) (value : String)
    → offered c "mode" value ≡ true
    → (value == "default" || value == "plan" || value == "backend") ≡ true
unfolding mode_option
mode_offered c value h =
    let shown : any (λ choice. choice.value == value) (mode_option c).choices ≡ true =
      rw (shown_mode c) at h in
    let one = eq_iff value "default" in
    let two = eq_iff value "plan" in
    let three = eq_iff value "backend" in
    ground (arith, eq_iff "default" value, eq_iff "plan" value, eq_iff "backend" value)

known_id : (c : Configuration) (id value : String) → offered c id value ≡ true → Has option_ids id
known_id c id value h = elim (Option-cases (shown_option c id)) [
  | inl e ↦ absurd (ground arith)
  | inr (option, e) ↦
      let both =
        find-all (λ option. option.config_id == id) (λ option. contains option_ids option.config_id)
          (options c) option e (options_known c) in
      let here = (and_iff _ _).0 both in rw ((eq_iff option.config_id id).0 here.0) at (here.1)
]

sandbox_policy_presets :
    (value : String) → is_some (sandbox_policy value) ≡ contains sandbox_presets value
unfolding sandbox_policy contains
sandbox_policy_presets value = ground (
  arith,
  eq_iff value "readOnly",
  eq_iff value "workspaceWrite",
  eq_iff value "dangerFullAccess",
  eq_iff "readOnly" value,
  eq_iff "workspaceWrite" value,
  eq_iff "dangerFullAccess" value,
)

is_ok_sandbox :
    (c : Configuration) (value : String)
    → is_ok (patch_of c "sandbox" value) ≡ contains sandbox_presets value
unfolding patch_of
is_ok_sandbox c value =
    let preset = sandbox_policy_presets value in
    elim (Option-cases (sandbox_policy value)) [
      | inl e ↦ ground arith
      | inr (policy, e) ↦ ground arith
    ]

is_ok_mode :
    (c : Configuration) (value : String)
    → offered c "mode" value ≡ true
    → is_ok (patch_of c "mode" value) ≡ not (value == "backend")
unfolding patch_of
is_ok_mode c value h =
    let among = mode_offered c value h in
    elim (Bool-cases (value == "backend")) [
      | inl e ↦ rw ((eq_iff value "backend").0 e) refl
      | inr e ↦
          let preset : (value == "default" || value == "plan") ≡ true = ground arith in
          rw (patch_of, preset, e) refl
    ]

is_ok_text :
    (c : Configuration) (id value : String)
    → Has option_ids id
    → (id == "sandbox") ≡ false
    → (id == "mode") ≡ false
    → is_ok (patch_of c id value) ≡ true
unfolding patch_of contains
is_ok_text c id value known sandbox mode = ground (
  arith,
  eq_iff "model" id,
  eq_iff "effort" id,
  eq_iff "serviceTier" id,
  eq_iff "approvalPolicy" id,
  eq_iff "sandbox" id,
  eq_iff "mode" id,
  eq_iff id "model",
  eq_iff id "effort",
  eq_iff id "serviceTier",
  eq_iff id "approvalPolicy",
  eq_iff id "sandbox",
  eq_iff id "mode",
)

is_ok-patch_of :
    (c : Configuration) (id value : String)
    → offered c id value ≡ true
    → is_ok (patch_of c id value) ≡ is_changeable id value
is_ok-patch_of c id value h = elim (Bool-cases (id == "sandbox")) [
  | inl e ↦ rw ((eq_iff id "sandbox").0 e) (is_ok_sandbox c value)
  | inr e ↦ elim (Bool-cases (id == "mode")) [
    | inl e' ↦ let same = (eq_iff id "mode").0 e' in rw same (is_ok_mode c value (rw same at h))
    | inr e' ↦ rw (e, e') (is_ok_text c id value (known_id c id value h) e e')
  ]
]

-- A value is accepted for an option exactly when the options offer it under that id, a sandbox is
-- one of the presets, and a mode is not the one the backend manages.
pub is_ok-patch :
    (encode : ConfigOption → Value) (encodes : EncodesChoices encode) (c : Configuration)
    (id value : String)
    → is_ok (patch encode c id (id_value value)) ≡ (offered c id value && is_changeable id value)
unfolding patch value_id
is_ok-patch encode encodes c id value =
    let chained =
      is_ok_guard (shown_option c id) (λ option. offers (encode option) value) unknown_option
        (unsupported_value id) (patch_of c id value) in
    let equal : is_some_and (shown_option c id) (λ option. offers (encode option) value)
        ≡ offered c id value =
      elim (Option-cases (shown_option c id)) [
        | inl e ↦ rw (e, offered) refl
        | inr (option, e) ↦ rw (e, offered) (encodes option value)
      ] in
    chained ∙ elim (Bool-cases (offered c id value)) [
      | inl e ↦ rw (equal, e) (is_ok-patch_of c id value e)
      | inr e ↦ rw (equal, e) refl
    ]
