-- ===== src/Tracking/Documents.antt =====
-- Documents of Terminal49 (src/integrations/terminal49_client/core.py), in the shape that its API
-- documents: types and ids are texts, an attribute is absent, null, or a text. Of the attributes
-- those are kept that tracking requests, containers and shipments are compared by.
use bokser_app.Prelude.{
  String, Bool, true, false, not, ◌&&◌, Option, none, some, List, [], ◌∷◌, ◌++◌, str_eq,
  if◌then◌else◌,
}
use bokser_app.Dict.{Dict, lookup}

-- `ReviewRequired` with its text, or another exception, by the reason that is stored for it.
pub data Fault : Type 0 where
  review failed : String → Fault

pub data Try {ℓ} (A : Type ℓ) : Type ℓ where
  ok : A → Try A
  raised : Fault → Try A

infixl 5 ◌>>=◌
abbrev pub ◌>>=◌ {ℓ κ} : {A : Type ℓ} {B : Type κ} → Try A → (A → Try B) → Try B
ok a >>= f = f a
raised e >>= f = raised e

pub record Link : Type 0 where
  pub kind : String
  pub id : String

-- The `data` of a relationship: null, one resource, or a list.
pub data Linkage : Type 0 where
  unlinked : Linkage
  linked : Link → Linkage
  several : List Link → Linkage

pub record Resource : Type 0 where
  pub kind : String
  pub id : String
  pub attributes : Dict (Option String)
  pub ref_numbers : List String
  pub relationships : Dict Linkage

pub data Primary : Type 0 where
  single : Resource → Primary
  listed : List Resource → Primary

pub record Doc : Type 0 where
  pub data_of : Primary
  pub included : List Resource

-- `relationship`
abbrev pub linkage_list : Option Linkage → List Link
linkage_list none = []
linkage_list (some unlinked) = []
linkage_list (some (linked l)) = l ∷ []
linkage_list (some (several ls)) = ls

unfoldable pub relationship : String → Resource → List Link
unfolding lookup
relationship name r = linkage_list (lookup name r.relationships)

abbrev pub primary_list : Primary → List Resource
primary_list (single r) = r ∷ []
primary_list (listed rs) = rs

-- A later resource of the same type and id takes the place of an earlier one.
unfoldable pub put_resource : Resource → List Resource → List Resource
put_resource r [] = r ∷ []
put_resource r (s ∷ rs) =
    if str_eq s.kind r.kind && str_eq s.id r.id then r ∷ rs else s ∷ put_resource r rs

unfoldable pub put_all : List Resource → List Resource → List Resource
unfolding put_resource
put_all [] acc = acc
put_all (r ∷ rs) acc = put_all rs (put_resource r acc)

-- `resources`, as its values in order.
unfoldable pub resources : Doc → List Resource
unfolding put_all
resources doc = put_all (primary_list doc.data_of ++ doc.included) []

-- `resources(doc).get((kind, id))`
unfoldable pub find_resource : String → String → List Resource → Option Resource
find_resource kind id [] = none
find_resource kind id (r ∷ rs) =
    if str_eq r.kind kind && str_eq r.id id then some r else find_resource kind id rs

-- `a.get(name)`
abbrev pub given : Option (Option String) → Option String
given none = none
given (some v) = v

abbrev pub attribute : String → Resource → Option String
attribute name r = given (lookup name r.attributes)

abbrev pub is_present : Option (Option String) → Bool
is_present none = false
is_present (some v) = true

abbrev pub text_or_empty : Option String → String
text_or_empty none = ""
text_or_empty (some s) = s

-- Whether Python takes an attribute for true.
abbrev pub is_truthy : Option String → Bool
is_truthy v = not (str_eq (text_or_empty v) "")

abbrev pub equals : Option String → String → Bool
equals none t = false
equals (some s) t = str_eq s t

-- `doc.get('data', [])` in a loop, and `doc['data']` where one resource is meant.
abbrev pub listed_data : Primary → Try (List Resource)
listed_data (listed rs) = ok rs
listed_data (single r) = raised (failed "AttributeError")

abbrev pub single_data : Primary → Try Resource
single_data (single r) = ok r
single_data (listed rs) = raised (failed "AttributeError")
