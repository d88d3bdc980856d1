-- ===== src/Samples/Edited.antt =====
-- A workflow whose graph is saved by the editor, and a run of it.
use Prim.Native.String.{◌∷◌ as str_cons, [] as str_nil}
use vaic2026_charcalavong.Prelude.{
  ℕ, zero, suc, String, ◌≡◌, refl, ap, none, some, List, [], ◌∷◌, elem, keep, put, put_all,
  from_keys, lookup, ok, string_eq, nat_eq, pair_eq,
}
use vaic2026_charcalavong.Graph.{Edge, assert_valid_graph}
use vaic2026_charcalavong.Store.{null, obj, end, Db}
use vaic2026_charcalavong.Worker.Authoring.{build_graph_snapshot}
use vaic2026_charcalavong.Catalog.{Workflow, Catalog, get_workflow, insert_run}
use vaic2026_charcalavong.Catalog.Editor.{
  GraphNodeIn, replace_workflow_graph, serialize_workflow_graph,
}
use vaic2026_charcalavong.Catalog.Links.{AllCanonical}
use vaic2026_charcalavong.Catalog.RoundTrip.{graph_of, replace_workflow_graph_lem}
use vaic2026_charcalavong.Samples.Authored.{nodes, edges, approvers}
use vaic2026_charcalavong.Samples.{snapshot}

-- A generator of ids: the n-th is n times the letter x.
abbrev pub tally : ℕ → String
tally zero = str_nil
tally (suc n) = str_cons "x" (tally n)

pub tally_inj : (i j : ℕ) → tally i ≡ tally j → i ≡ j
tally_inj zero zero e = refl
tally_inj zero (suc j) e = cc
tally_inj (suc i) zero e = cc
tally_inj (suc i) (suc j) e = ap suc (tally_inj i j cc)

abbrev pub workflow : Workflow
workflow = record {
  id = "w";
  name = "claims";
  version = 1;
  nodes = nodes;
  edges = edges;
  approvers = approvers;
}

abbrev pub catalog : Catalog
catalog = record { workflows = workflow ∷ []; runs = []; fresh = 0; now = 7 }

abbrev request : List GraphNodeIn
request =
    record {
      node_key = "p";
      label = "P";
      agent_id = "agent";
      config = null;
      approver_user_ids = [];
    }
    ∷ record {
      node_key = "q";
      label = "Q";
      agent_id = "agent";
      config = obj end;
      approver_user_ids = "u1" ∷ "u2" ∷ [];
    }
    ∷ []

abbrev pairs : List Edge
pairs = ("p", "q") ∷ []

pub exists : get_workflow "w" catalog.workflows ≡ ok workflow
unfolding get_workflow
exists = refl

abbrev made : Catalog × Db
made = insert_run tally workflow none (some snapshot) catalog

abbrev builder : String
builder = "builder"

accepted_request : assert_valid_graph ("p" ∷ "q" ∷ []) pairs ≡ ok tt
unfolding assert_valid_graph elem keep put put_all from_keys lookup
accepted_request = refl

canonical : AllCanonical some request
unfolding elem
canonical = (
  record { has_agent = refl; agent_text = refl; user_texts = λ u m. refl; distinct_users = tt },
  (
    record {
      has_agent = refl;
      agent_text = refl;
      user_texts = λ u m. refl;
      distinct_users = (refl, (refl, tt));
    },
    tt,
  ),
)

replace_workflow_graph_lem_example :
    (cat' : Catalog) × (w' : Workflow) × (replace_workflow_graph tally some "w" "builder" request
        pairs catalog
      ≡ ok (cat', graph_of request pairs))
    × (serialize_workflow_graph "w" cat' ≡ ok (graph_of request pairs))
    × (get_workflow "w" cat'.workflows ≡ ok w')
    × (build_graph_snapshot w'.nodes w'.edges w'.approvers ≡ ok (some (graph_of request pairs)))
    × (w'.version ≡ 2)
replace_workflow_graph_lem_example =
    replace_workflow_graph_lem tally tally_inj some "w" request pairs catalog workflow exists
      accepted_request canonical
