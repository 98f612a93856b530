-- ===== src/Fingerprint.antt =====
-- app/services/fingerprint.py: what two log messages have in common. The substitutions of the module's
-- patterns are those of `re`; white space, lines and the joining of the parts are modelled.
use loglens_api.Base.{
  ℕ, Bool, true, false, Option, none, some, List, [], ◌∷◌, ◌++◌, ◌||◌, ◌&&◌, leb, ◌==◌,
  if◌then◌else◌,
}
use loglens_api.Text.{Text, codes, is_space, strip, lower}
use loglens_api.Effect.{
  Env, uuid, iso_timestamp, iso_date, email, ip, memory_address, request_id, label_number, hex,
  long_number, stack_line, colon_number,
}

pub record FingerprintInput : Type 0 where
  pub service_name : Text
  pub normalized_message : Text
  pub exception_type : Option Text
  pub stack_trace : Option Text

-- `re.sub(r"\s+", " ", text)`: `in_space` says that the run has been replaced already.
unfoldable pub collapse_from : Bool → Text → Text
unfolding is_space
collapse_from in_space [] = []
collapse_from in_space (c ∷ s) = elim (is_space c) [
  | true ↦ (let rest = collapse_from true s in if in_space then rest else 32 ∷ rest)
  | false ↦ c ∷ collapse_from false s
]

abbrev pub collapse : Text → Text
collapse = collapse_from false

-- The line boundaries of `str.splitlines`, with `\r\n` as one.
abbrev pub is_line_break : ℕ → Bool
is_line_break c =
    (leb 10 c && leb c 13) || (leb 28 c && leb c 30) || c == 0x85 || c == 0x2028 || c == 0x2029

-- What is left after the last line break is a line if it is not empty.
abbrev pub last_line : Text → List Text
last_line [] = []
last_line (c ∷ s) = (c ∷ s) ∷ []

-- The lines of a text, `line` being what was read of the current one, and `after_return` whether a
-- carriage return has just ended a line.
unfoldable pub splitlines_from : Text → Bool → Text → List Text
splitlines_from line after_return [] = last_line line
splitlines_from line after_return (c ∷ s) = elim (after_return && c == 10) [
  | true ↦ splitlines_from [] false s
  | false ↦ elim (is_line_break c) [
    | true ↦ line ∷ splitlines_from [] (c == 13) s
    | false ↦ splitlines_from (line ++ c ∷ []) false s
  ]
]

unfoldable pub splitlines : Text → List Text
unfolding splitlines_from
splitlines = splitlines_from [] false

-- `separator.join(parts)`
unfoldable pub join : Text → List Text → Text
join separator [] = []
join separator (p ∷ []) = p
join separator (p ∷ q ∷ ps) = p ++ (separator ++ join separator (q ∷ ps))

abbrev pub or_empty : Option Text → Text
or_empty none = []
or_empty (some t) = t

module _ (env : Env) where
  open env use {re_sub}

  unfoldable pub normalize_common : Text → Text
  normalize_common text =
      let t = strip text in
      let t = re_sub uuid t in
      let t = re_sub iso_timestamp t in
      let t = re_sub iso_date t in
      let t = re_sub email t in
      let t = re_sub ip t in
      let t = re_sub memory_address t in
      let t = re_sub request_id t in
      let t = re_sub label_number t in
      let t = re_sub hex t in let t = re_sub long_number t in strip (collapse t)

  unfoldable pub normalize_message : Text → Text
  unfolding normalize_common
  normalize_message message = normalize_common message

  abbrev pub normalize_line : Text → Text
  normalize_line line = re_sub colon_number (normalize_common (re_sub stack_line line))

  -- A stripped line, unless it is empty, in front of the others.
  abbrev pub keep_line : Text → List Text → List Text
  keep_line [] rest = rest
  keep_line (c ∷ s) rest = normalize_line (c ∷ s) ∷ rest

  unfoldable pub normalize_lines : List Text → List Text
  normalize_lines [] = []
  normalize_lines (raw_line ∷ ls) = keep_line (strip raw_line) (normalize_lines ls)

  unfoldable pub normalize_stack_trace : Option Text → Text
  unfolding splitlines join normalize_lines
  normalize_stack_trace none = []
  normalize_stack_trace (some t) = join (codes "\n") (normalize_lines (splitlines t))

  abbrev pub parts : FingerprintInput → List Text
  parts payload =
      lower (strip payload.service_name)
      ∷ payload.normalized_message
      ∷ lower (strip (or_empty payload.exception_type))
      ∷ normalize_stack_trace payload.stack_trace
      ∷ []

  unfoldable pub generate_fingerprint : FingerprintInput → Text
  unfolding join
  generate_fingerprint payload = env.sha256 (join (codes "|") (parts payload))
