-- ===== src/Github/Patch.antt =====
-- `GenerateMemoryLimitPatch` of internal/github/client.go. The YAML parser is a parameter; a node keeps
-- its kind, its value, its line and column, which the parser counts from 1, and its children.
pub mod Local
pub mod Revert
use incident_pilot.Common.{
  ℕ, suc, ◌+◌, ◌*◌, ◌-◌, Bool, true, false, not, ◌&&◌, ◌||◌, Option, none, some, List, [], ◌∷◌,
  ◌++◌, length, take, drop, ltb, leb, if◌then◌else◌, ◌>>=◌, ◌>>◌, guard,
}
use incident_pilot.Text.{Bytes, lit, ◌==◌, contains}
use incident_pilot.Text.Split.{split_after, concat, nth, set_nth}
use incident_pilot.Remediation.Types.{Proposal}

pub data Kind : Type 0 where
  document mapping sequence scalar_kind alias : Kind

mutual
  pub data Node : Type 0 where
    node : Kind → Bytes → ℕ → ℕ → Nodes → Node

  pub data Nodes : Type 0 where
    no_nodes : Nodes
    more : Node → Nodes → Nodes

pub record Yaml : Type 0 where
  -- the documents of a stream, or `none` where one is invalid
  pub documents : Bytes → Option (List Node)
  -- yaml.Unmarshal into a node
  pub unmarshal : Bytes → Option Node

unfoldable pub value_of : Node → Bytes
value_of (node kind value line column content) = value

unfoldable pub is_scalar : Node → Bool
is_scalar (node scalar_kind value line column content) = true
is_scalar n = false

unfoldable pub document_root : Node → Node
document_root (node document value line column (more root no_nodes)) = root
document_root n = n

-- `none` for a nil node
unfoldable pub scalar : Option Node → Bytes
scalar (some (node scalar_kind value line column content)) = value
scalar n = []

find_pair : Bytes → Nodes → Option Node
unfolding scalar
find_pair key no_nodes = none
find_pair key (more k no_nodes) = none
find_pair key (more k (more v rest)) =
    let later = find_pair key rest in if scalar (some k) == key then some v else later

unfoldable pub mapping_value : Bytes → Option Node → Option Node
unfolding find_pair
mapping_value key (some (node mapping value line column content)) = find_pair key content
mapping_value key n = none

-- mappingValue of mappingValue and so on, the outer name first
unfoldable pub at_path : List Bytes → Option Node → Option Node
unfolding mapping_value
at_path [] n = n
at_path (key ∷ keys) n = at_path keys (mapping_value key n)

-- the scalar among the found nodes
unfoldable pub scalar_node : Option Node → List Node
unfolding is_scalar
scalar_node none = []
scalar_node (some n) = if is_scalar n then n ∷ [] else []

memory_limits : Nodes → List Node
unfolding scalar at_path mapping_value scalar_node lit
memory_limits no_nodes = []
memory_limits (more container rest) =
    let later = memory_limits rest in
    if scalar (mapping_value (lit "name") (some container)) == lit "payments-api"
    then scalar_node (at_path (lit "resources" ∷ lit "limits" ∷ lit "memory" ∷ []) (some container))
      ++ later
    else later

of_sequence : Option Node → List Node
unfolding memory_limits
of_sequence (some (node sequence value line column content)) = memory_limits content
of_sequence n = []

-- the matches in one document
of_document : Node → List Node
unfolding document_root scalar at_path of_sequence
of_document doc =
    let root = some (document_root doc) in
    if not (scalar (at_path (lit "kind" ∷ []) root) == lit "Deployment")
      || not (scalar (at_path (lit "metadata" ∷ lit "name" ∷ []) root) == lit "payments-api")
    then []
    else of_sequence
        (at_path (lit "spec" ∷ lit "template" ∷ lit "spec" ∷ lit "containers" ∷ []) root)

of_documents : List Node → List Node
unfolding of_document
of_documents [] = []
of_documents (doc ∷ docs) = of_document doc ++ of_documents docs

with_value : Bytes → List Node → List Node
unfolding value_of
with_value before [] = []
with_value before (n ∷ ns) = if value_of n == before then n ∷ [] else []

module _ (y : Yaml) where
  unfoldable pub helm_values_memory_limit : Bytes → Proposal → List Node
  unfolding document_root at_path scalar_node with_value
  helm_values_memory_limit content proposal = elim (y.unmarshal content) [
    | none ↦ []
    | some doc ↦ with_value proposal.change.before (
        scalar_node (
          at_path (lit "demo" ∷ lit "payments" ∷ lit "resources" ∷ lit "limits" ∷ lit "memory" ∷ [])
            (some (document_root doc))))
  ]

  -- the matches of the manifests, or else those of the Helm values
  matches_or_values : Bytes → Proposal → List Node → List Node
  unfolding helm_values_memory_limit
  matches_or_values content proposal [] = helm_values_memory_limit content proposal
  matches_or_values content proposal (n ∷ ns) = n ∷ ns

unfoldable pub is_memory_limit_change : Proposal → Bool
is_memory_limit_change proposal =
    proposal.operation == lit "update_resource_limit"
    && proposal.target.kind == lit "Deployment"
    && proposal.target.namespace == lit "incidentpilot-demo"
    && proposal.target.name == lit "payments-api"
    && proposal.target.container == lit "payments-api"
    && proposal.change.field == lit "memory_limit"

-- the line with `after` in place of `before` at a column
unfoldable pub patch_line : ℕ → Bytes → Bytes → Bytes → Option Bytes
patch_line column before after line =
    if ltb (length line) (column + length before)
      || not (take (length before) (drop column line) == before)
    then none
    else some (take column line ++ (after ++ drop (length before) (drop column line)))

-- the one match, if its value, line and column are as expected
sole_match : Bytes → List Node → Option (ℕ × ℕ)
sole_match before (node kind value (suc line) (suc column) content ∷ []) =
    if value == before then some (line, column) else none
sole_match before ns = none

-- the content with the value replaced at a line and a column that count from 0
unfoldable pub patch_at : ℕ → ℕ → Bytes → Bytes → Bytes → Option Bytes
unfolding split_after concat nth set_nth patch_line
patch_at line column before after content = do
  old ← nth line (split_after 10 content)
  new ← patch_line column before after old
  some (concat (set_nth line new (split_after 10 content)))

-- bytes.Count(patched, after) < 1 says that `patched` does not contain `after`
unfoldable pub generate_memory_limit_patch : Yaml → Bytes → Proposal → Option Bytes
unfolding is_memory_limit_change of_documents matches_or_values sole_match patch_at contains
generate_memory_limit_patch y content proposal = do
  guard (
      not (content == [])
      && not (ltb (256 * 1024) (length content))
      && is_memory_limit_change proposal)
  docs ← y.documents content
  place ←
      sole_match proposal.change.before (matches_or_values y content proposal (of_documents docs))
  patched ← patch_at place.0 place.1 proposal.change.before proposal.change.after content
  guard (not (content == patched) && contains patched proposal.change.after)
  some patched
