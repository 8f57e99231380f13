-- ===== src/Pipelines/Arguments.antt =====
-- pipelines/pipelines/schemas.py: InputArguments, the arguments of a step. A ValidationError is none.
use badgerdoc.Base.{
  ℕ, Bool, true, false, ◌&&◌, ◌||◌, Option, none, some, List, [], ◌∷◌, ◌++◌, if◌then◌else◌, ◌==◌,
  ◌+◌, leb, filter_by,
}
use badgerdoc.Annotations.Types.{Text, same_text}
use badgerdoc.Pipelines.Types.{PipelineType, preprocessing, inference, CheckError}

-- A JSON dict, in the order of its keys.
abbrev pub Dict : Type 0 → Type 0
Dict V = List (Text × V)

-- The fields; `is_init` is the key `_is_init`, true if it is missing.
pub record Fields (V : Type 0) : Type 0 where
  pub input_path : Option Text
  pub input : Option (Dict V)
  pub file : Text
  pub bucket : Text
  pub pages : Option (List ℕ)
  pub output_path : Text
  pub output_bucket : Option Text
  pub is_init : Bool

-- The validated fields, `_path` and `_current_step_id`.
pub record InputArguments (V : Type 0) : Type 0 where
  pub fields : Fields V
  pub path : Text
  pub current_step_id : Text

-- What pydantic reads of a dict before the validators of the class, and writes; a dict as a value; Python's
-- white space, urljoin and str; the dict of an error; and the configured number of retries.
pub record Services (V : Type 0) : Type 0 where
  pub read_fields : Dict V → Option (Fields V)
  pub dict : InputArguments V → Dict V
  pub dict_value : Dict V → V
  pub is_space : ℕ → Bool
  pub urljoin : Text → Text → Text
  pub str : ℕ → Text
  pub error_result : CheckError → Dict V
  pub max_retries : ℕ

abbrev pub slash : ℕ
slash = 47

abbrev pub is_slash : ℕ → Bool
is_slash c = c == slash

-- The falsy values of a list, a string and a dict.
abbrev pub is_nil {ℓ} : {A : Type ℓ} → List A → Bool
is_nil [] = true
is_nil (x ∷ xs) = false

abbrev pub lstrip : (ℕ → Bool) → Text → Text
lstrip drops [] = []
lstrip drops (c ∷ cs) = let rest = lstrip drops cs in if drops c then rest else c ∷ cs

abbrev pub rstrip : (ℕ → Bool) → Text → Text
rstrip drops [] = []
rstrip drops (c ∷ cs) =
    let rest = rstrip drops cs in if is_nil rest && drops c then [] else c ∷ rest

abbrev pub count_slashes : Text → ℕ
count_slashes [] = 0
count_slashes (c ∷ cs) = (if is_slash c then 1 else 0) + count_slashes cs

-- `rsplit("/", 1)[-1]`
abbrev pub last_component : Text → Text
last_component [] = []
last_component (c ∷ cs) =
    let rest = last_component cs in if count_slashes (c ∷ cs) == 0 then c ∷ cs else rest

-- `rsplit("/", 1)[0]`
abbrev pub without_component : Text → Text
without_component [] = []
without_component (c ∷ cs) =
    let rest = without_component cs in if is_slash c && count_slashes cs == 0 then [] else c ∷ rest

abbrev pub get_step_id_from_path : Text → Text
get_step_id_from_path path = last_component (rstrip is_slash path)

-- get_path with `trim`.
abbrev pub get_path : Text → Text
get_path output_path = without_component (rstrip is_slash output_path)

abbrev pub json_suffix : Text
json_suffix = 46 ∷ 106 ∷ 115 ∷ 111 ∷ 110 ∷ []

-- `a or b` for an optional string.
abbrev pub text_or : Option Text → Text → Text
text_or none b = b
text_or (some []) b = b
text_or (some (c ∷ cs)) b = c ∷ cs

abbrev pub is_among : Text → List Text → Bool
is_among key [] = false
is_among key (k ∷ ks) = same_text key k || is_among key ks

module _ {V : Type 0} where
  abbrev pub filter_dict_by_categories : Dict V → List Text → Dict V
  filter_dict_by_categories d categories = filter_by (λ item. is_among item.0 categories) d

  -- `d.update({key: value})`
  abbrev pub set_item : Text → V → Dict V → Dict V
  set_item key value [] = (key, value) ∷ []
  set_item key value ((k, v) ∷ d) =
      let rest = set_item key value d in if same_text k key then (k, value) ∷ d else (k, v) ∷ rest

  -- An empty choice is replaced by an empty dict, which it is.
  abbrev pub create_input_by_label : Option (List Text) → InputArguments V → InputArguments V
  create_input_by_label none a = a
  create_input_by_label (some []) a = a
  create_input_by_label (some (label ∷ labels)) a = elim a.fields.input [
    | none ↦ a
    | some input ↦ if is_nil input || a.fields.is_init then a else record a {
      fields = record a.fields { input = some (filter_dict_by_categories input (label ∷ labels)) };
    }
  ]

module _ {V : Type 0} (services : Services V) where
  open services use {read_fields, is_space, urljoin, str}

  abbrev pub trim : Text → Text
  trim v = rstrip is_slash (rstrip is_space (lstrip is_space v))

  abbrev pub path_validator : Text → Option Text
  path_validator v =
      if leb 2 (count_slashes (trim v)) && leb (count_slashes (trim v)) 4
      then some (trim v)
      else none

  abbrev pub optional_path : Option Text → Option (Option Text)
  optional_path none = some none
  optional_path (some v) = elim (path_validator v) [ none ↦ none | some path ↦ some (some path) ]

  abbrev pub file_path_validator : Text → Option Text
  file_path_validator v = if count_slashes (trim v) == 2 then some (trim v) else none

  -- `InputArguments(**kwargs)`: the validators, then the private attributes.
  abbrev pub make_arguments : Fields V → Option (InputArguments V)
  make_arguments fields = elim (optional_path fields.input_path) [
    | none ↦ none
    | some input_path ↦ elim (file_path_validator fields.file) [
      | none ↦ none
      | some file ↦ elim (path_validator fields.output_path) [
        | none ↦ none
        | some output_path ↦ some (record {
          fields = record fields {
            input_path = input_path;
            file = file;
            output_path = output_path;
            output_bucket = some (text_or fields.output_bucket fields.bucket);
          };
          path = get_path output_path;
          current_step_id = get_step_id_from_path output_path;
        })
      ]
    ]
  ]

  abbrev pub parse_obj : Dict V → Option (InputArguments V)
  parse_obj d = elim (read_fields d) [ none ↦ none | some fields ↦ make_arguments fields ]

  abbrev pub append_path : Text → Option Text → Text → InputArguments V → Text
  append_path stem path ext a = urljoin (text_or path a.path ++ slash ∷ []) stem ++ ext

  abbrev pub next_step_args :
      PipelineType → ℕ → Option (Dict V) → InputArguments V → Option (InputArguments V)
  next_step_args pipeline_type curr_step_id input a = make_arguments (record a.fields {
    input_path = some (append_path a.current_step_id none [] a);
    input = input;
    output_path = elim pipeline_type [
      | inference ↦ append_path (str curr_step_id) none json_suffix a
      | preprocessing ↦ a.fields.output_path
    ];
    is_init = false;
  })

  -- `self.input if self.input else {}`
  abbrev pub input_or_empty : Option (Dict V) → Dict V
  input_or_empty none = []
  input_or_empty (some input) = input

  abbrev pub prepare_for_init : PipelineType → ℕ → InputArguments V → Option (InputArguments V)
  prepare_for_init pipeline_type curr_step_id a = make_arguments (record a.fields {
    input_path = some (text_or a.fields.input_path a.fields.output_path);
    input = some (input_or_empty a.fields.input);
    output_path = elim pipeline_type [
      | inference ↦ append_path (str curr_step_id) (some a.fields.output_path) json_suffix a
      | preprocessing ↦ a.fields.output_path
    ];
    is_init = true;
  })
