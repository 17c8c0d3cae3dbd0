-- ===== src/Jobs/Jdl.antt =====
-- What the code uses of JDLs and of the class `ClassAd` of DIRACCommon, and `check_and_prepare_job`
-- (diracx-logic/src/diracx/logic/jobs/utils.py).
use Prim.Native.Char.{code}
use diracx.Prelude.{
  ℕ, String, Bool, true, false, ◌&&◌, ◌||◌, Option, none, some, List, [], ◌∷◌, nat_eq, leb,
  if◌then◌else◌,
}
use diracx.Prelude.Text.{append}
use diracx.Prelude.Outcome.{Action, pure, ◌>>◌}
use diracx.Jobs.Db.{Attributes, JobDb, set_job_attributes}

-- The answer of `checkAndPrepareJob`: the two ads that it has changed, or an error, which may be that of a
-- submission, with the attributes that it has changed.
pub data Checked (C : Type 0) : Type 0 where
  prepared : C → C → Checked C
  refused : Bool → Attributes → Checked C

-- What is asked about a job.
pub record Candidate : Type 0 where
  pub job_id : ℕ
  pub owner : String
  pub owner_group : String
  pub vo : String
  pub attributes : Attributes

pub record Jdls (C : Type 0) : Type 0 where
  pub extract_jdl : String → String
  pub compress_jdl : String → String
  -- `ClassAd(jdl)`, and its methods
  pub class_ad : String → C
  pub insert_attribute_int : String → ℕ → C → C
  pub insert_attribute_jdl : String → String → C → C
  pub get_attribute_int : String → C → Option ℕ
  pub get_list_from_expression : String → C → List String
  pub as_jdl : C → String
  pub check_and_prepare : Candidate → C → C → Checked C

-- the white space of `str.strip`, within ASCII
abbrev pub is_space : ℕ → Bool
is_space c = leb 9 c && leb c 13 || leb 28 c && leb c 32

-- `s.strip().startswith("[")`
unfoldable pub opens_bracket : String → Bool
opens_bracket String.[] = false
opens_bracket (String.◌∷◌ c s) =
    let rest = opens_bracket s in if is_space (code c) then rest else nat_eq (code c) 91

-- `f"[{job_jdl}]"` where the bracket is missing
abbrev pub with_brackets : String → String
with_brackets jdl = if opens_bracket jdl then jdl else append "[" (append jdl "]")

-- `s.replace("%j", id)`
unfoldable pub replace_id : String → String → String
replace_id id String.[] = ""
replace_id id (String.◌∷◌ c String.[]) = String.◌∷◌ c ""
replace_id id (String.◌∷◌ c (String.◌∷◌ d s)) =
    let here = append id (replace_id id s) in
    let past = String.◌∷◌ c (replace_id id (String.◌∷◌ d s)) in
    if nat_eq (code c) 37 && nat_eq (code d) 106 then here else past

module _ {C : Type 0} (jdls : Jdls C) (clock : ℕ → ℕ) where
  -- the answer, with `none` for the `SErrorException` of `returnValueOrRaise`; the error of a submission
  -- first sets the attributes of the job
  abbrev pub answer_of : Candidate → Checked C → Action JobDb (Option (C × C))
  answer_of c (prepared job req) = pure (some (job, req))
  answer_of c (refused true attrs) =
      set_job_attributes (clock c.job_id) ((c.job_id, attrs) ∷ []) >> pure none
  answer_of c (refused false attrs) = pure none

  unfoldable pub check_and_prepare_job : Candidate → C → C → Action JobDb (Option (C × C))
  check_and_prepare_job c job req = answer_of c (jdls.check_and_prepare c job req)
