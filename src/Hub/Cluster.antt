-- ===== src/Hub/Cluster.antt =====
-- The configuration maps of one Kubernetes namespace, as components/idthw_hub reaches them through
-- `kubectl` (features/kubernetes/api/kubectl.ts): a parameter of the code that uses it, with the
-- documented behaviour of the commands as laws.
use id_jag_the_hard_way.Base.{
  ◌≡◌, ◌↔◌, Option, none, some, List, Result, ok, if◌then◌else◌, includes, ◌==◌, Member,
}
use id_jag_the_hard_way.Base.Text.{Text, text_eq}
use id_jag_the_hard_way.Base.Dict.{Dict, get, set}
use id_jag_the_hard_way.Base.Json.{Value}

-- A text that is stored under a key: the value that it prints, or a text that is empty or that
-- `JSON.parse` refuses.
pub data Content : Type 0 where
  json : Value → Content
  blank malformed : Content

pub record ConfigMap : Type 0 where
  pub name : Text
  pub labels : Dict Text
  pub annotations : Dict Text
  pub contents : Dict Content

-- A merge patch of one key of the data and one label.
pub record Patch : Type 0 where
  pub key : Text
  pub content : Content
  pub label : Text
  pub label_value : Text

unfoldable pub merge : ConfigMap → Patch → ConfigMap
merge m p = record m {
  contents = set m.contents p.key p.content;
  labels = set m.labels p.label p.label_value;
}

-- A command that fails is taken to have changed nothing. A deletion of several maps that breaks off
-- and a command that is killed may have changed some, which is the same as a command that succeeds
-- for these (`delete_listed` in Hub.Workflow.Reach). The reviews are the commands with
-- `--dry-run=server`.
pub record Cluster : Type 1 where
  pub State : Type 0
  pub stored : State → Text → Option ConfigMap
  pub fetch : State → Text → Result Text (Option ConfigMap)
  pub select : State → (label value : Text) → Result Text (List ConfigMap)
  pub review_create : State → ConfigMap → Result Text (Unit {0})
  pub create : State → ConfigMap → Result Text State
  pub review_patch : State → Text → Patch → Result Text (Unit {0})
  pub patch : State → Text → Patch → Result Text State
  pub review_delete : State → List Text → Result Text (Unit {0})
  pub delete : State → List Text → Result Text State

pub record Laws (c : Cluster) : Type 0 where
  pub stored_name : (s : c.State) (n : Text) {m : ConfigMap} → c.stored s n ≡ some m → m.name ≡ n
  pub fetch_lem :
      (s : c.State) (n : Text) {o : Option ConfigMap} → c.fetch s n ≡ ok o → o ≡ c.stored s n
  pub select_lem :
      (s : c.State) (label value : Text) {l : List ConfigMap}
      → c.select s label value ≡ ok l
      → (m : ConfigMap)
      → Member m l ↔ (c.stored s m.name ≡ some m) × (get m.labels label ≡ some value)
  pub create_new :
      (s : c.State) (m : ConfigMap) {t : c.State} → c.create s m ≡ ok t → c.stored s m.name ≡ none
  pub create_lem :
      (s : c.State) (m : ConfigMap) {t : c.State}
      → c.create s m ≡ ok t
      → (n : Text) → c.stored t n ≡ (if m.name == n then some m else c.stored s n)
  pub patch_old :
      (s : c.State) (name : Text) (p : Patch) {t : c.State}
      → c.patch s name p ≡ ok t
      → (m : ConfigMap) × (c.stored s name ≡ some m)
  pub patch_lem :
      (s : c.State) (name : Text) (p : Patch) {t : c.State} {m : ConfigMap}
      → c.patch s name p ≡ ok t
      → c.stored s name ≡ some m
      → (n : Text) → c.stored t n ≡ (if name == n then some (merge m p) else c.stored s n)
  pub delete_lem :
      (s : c.State) (names : List Text) {t : c.State}
      → c.delete s names ≡ ok t
      → (n : Text) → c.stored t n ≡ (if includes names n then none else c.stored s n)
