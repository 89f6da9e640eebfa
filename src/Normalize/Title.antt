-- ===== src/Normalize/Title.antt =====
-- internal/normalize/title.go: ParseTitle. A text is its code points; `unicode` is Go's table of lower
-- case beyond ASCII.
pub mod Spaces
pub mod Stable
use devsignal.Prelude.{
  ℕ, Bool, true, false, ◌&&◌, ◌||◌, Option, none, some, List, [], ◌∷◌, ◌++◌, map, ◌==◌,
  if◌then◌else◌, bytes,
}
use devsignal.Prelude.Text.{Text, join, fields, contains, to_lower, is_empty}

pub data Seniority : Type 0 where
  intern junior mid senior staff principal : Seniority

pub data Family : Type 0 where
  ml data_family security platform mobile frontend backend fullstack qa design product sales support
        marketing people finance engineering :
      Family

pub record Title : Type 0 where
  pub normalized : Text
  pub role_family : Option Family
  pub seniority : Option Seniority
  pub is_management : Bool

-- The needles that stand for one value.
pub record Rule {ℓ} (A : Type ℓ) : Type ℓ where
  pub needles : List Text
  pub value : A

abbrev rule {ℓ} : {A : Type ℓ} → A → List Text → Rule A
rule v ns = record { needles = ns; value = v }

abbrev pub seniority_rules : List (Rule Seniority)
seniority_rules =
    rule principal (bytes "distinguished" ∷ bytes "fellow" ∷ [])
    ∷ rule principal (bytes "principal" ∷ [])
    ∷ rule staff (bytes "staff" ∷ [])
    ∷ rule senior (bytes "senior" ∷ bytes "sr." ∷ bytes "sr " ∷ bytes "lead " ∷ [])
    ∷ rule mid (bytes "intermediate" ∷ bytes "mid-level" ∷ bytes "mid level" ∷ [])
    ∷ rule junior (
        bytes "junior"
        ∷ bytes "jr."
        ∷ bytes "jr "
        ∷ bytes "entry level"
        ∷ bytes "entry-level"
        ∷ bytes "graduate"
        ∷ bytes "associate"
        ∷ [])
    ∷ rule intern (bytes "intern" ∷ bytes "internship" ∷ bytes "apprentice" ∷ bytes "trainee" ∷ [])
    ∷ []

abbrev pub management_needles : List Text
management_needles =
    bytes "manager"
    ∷ bytes "director"
    ∷ bytes "vp "
    ∷ bytes "vice president"
    ∷ bytes "head of"
    ∷ bytes "chief"
    ∷ bytes "cto"
    ∷ bytes "ceo"
    ∷ bytes "cfo"
    ∷ []

abbrev pub role_family_rules : List (Rule Family)
role_family_rules =
    rule ml (
      bytes "machine learning"
      ∷ bytes "ml engineer"
      ∷ bytes "deep learning"
      ∷ bytes "nlp"
      ∷ bytes "computer vision"
      ∷ bytes "ai engineer"
      ∷ bytes "research scientist"
      ∷ [])
    ∷ rule data_family (
        bytes "data engineer"
        ∷ bytes "data scientist"
        ∷ bytes "analytics engineer"
        ∷ bytes "data analyst"
        ∷ bytes "data platform"
        ∷ bytes "bi "
        ∷ bytes "business intelligence"
        ∷ [])
    ∷ rule security (
        bytes "security"
        ∷ bytes "appsec"
        ∷ bytes "infosec"
        ∷ bytes "threat"
        ∷ bytes "vulnerability"
        ∷ bytes "penetration"
        ∷ [])
    ∷ rule platform (
        bytes "site reliability"
        ∷ bytes " sre"
        ∷ bytes "sre "
        ∷ bytes "devops"
        ∷ bytes "platform engineer"
        ∷ bytes "infrastructure engineer"
        ∷ bytes "cloud engineer"
        ∷ [])
    ∷ rule mobile (
        bytes "ios"
        ∷ bytes "android"
        ∷ bytes "mobile engineer"
        ∷ bytes "react native"
        ∷ bytes "flutter"
        ∷ [])
    ∷ rule frontend (
        bytes "frontend"
        ∷ bytes "front-end"
        ∷ bytes "front end"
        ∷ bytes "ui engineer"
        ∷ bytes "web engineer"
        ∷ [])
    ∷ rule backend
        (bytes "backend" ∷ bytes "back-end" ∷ bytes "back end" ∷ bytes "server-side" ∷ [])
    ∷ rule fullstack (bytes "fullstack" ∷ bytes "full-stack" ∷ bytes "full stack" ∷ [])
    ∷ rule qa (
        bytes "qa "
        ∷ bytes "quality engineer"
        ∷ bytes "test engineer"
        ∷ bytes "sdet"
        ∷ bytes "automation engineer"
        ∷ [])
    ∷ rule design (bytes "designer" ∷ bytes "ux " ∷ bytes "ui/ux" ∷ bytes "product design" ∷ [])
    ∷ rule product (
        bytes "product manager"
        ∷ bytes "product owner"
        ∷ bytes "technical program manager"
        ∷ bytes "tpm "
        ∷ [])
    ∷ rule sales (
        bytes "account executive"
        ∷ bytes "sales"
        ∷ bytes "business development"
        ∷ bytes "solutions engineer"
        ∷ bytes "pre-sales"
        ∷ [])
    ∷ rule support (
        bytes "support engineer"
        ∷ bytes "customer success"
        ∷ bytes "solutions architect"
        ∷ bytes "technical account"
        ∷ [])
    ∷ rule marketing
        (bytes "marketing" ∷ bytes "content strategist" ∷ bytes "demand generation" ∷ [])
    ∷ rule people (
        bytes "recruiter"
        ∷ bytes "talent acquisition"
        ∷ bytes "people partner"
        ∷ bytes "human resources"
        ∷ bytes "employee relations"
        ∷ [])
    ∷ rule finance
        (bytes "accountant" ∷ bytes "financial analyst" ∷ bytes "controller" ∷ bytes "payroll" ∷ [])
    ∷ rule engineering
        (bytes "engineer" ∷ bytes "developer" ∷ bytes "programmer" ∷ bytes "architect" ∷ [])
    ∷ []

unfoldable pub contains_any : Text → List Text → Bool
unfolding contains
contains_any haystack [] = false
contains_any haystack (n ∷ ns) = contains haystack n || contains_any haystack ns

-- The value of the first rule that matches.
unfoldable pub first_match {ℓ} : {A : Type ℓ} → Text → List (Rule A) → Option A
unfolding contains_any
first_match padded [] = none
first_match padded (r ∷ rs) =
    if contains_any padded r.needles then some r.value else first_match padded rs

-- strings.NewReplacer: each of the single characters has one replacement. The first is the no-break
-- space, the last two the dashes.
unfoldable pub replaced : ℕ → ℕ
replaced c =
    if c == 0xa0 || c == 9 || c == 10 || c == 13
    then 32
    else if c == 0x2014 || c == 0x2013
    then b'-'
    else c

unfoldable pub normalize_space : Text → Text
unfolding replaced
normalize_space s = join (bytes " ") (fields (map replaced s))

unfoldable pub parse_normalized : Text → Title
parse_normalized norm =
    let padded = bytes " " ++ (norm ++ bytes " ") in
    if is_empty norm
    then record { normalized = norm; role_family = none; seniority = none; is_management = false }
    else record {
      normalized = norm;
      role_family = first_match padded role_family_rules;
      seniority = first_match padded seniority_rules;
      is_management = contains_any padded management_needles;
    }

unfoldable pub parse_title : (ℕ → ℕ) → Text → Title
parse_title unicode raw = parse_normalized (normalize_space (to_lower unicode raw))
