-- ===== src/Spamhunter/Detect.antt =====
-- spamhunter/pubkey_iterator/src/detect/mod.rs: the choice of the layers, the score of a pubkey and
-- the table of weights. The layers and the arithmetic on floats are parameters.
use deepfry.Base.{
  ℕ, Bool, Option, none, some, List, [], ◌∷◌, ◌++◌, map, any, bytes_eq, if◌then◌else◌,
}
use deepfry.Base.Results.{Result, ok, err}
use deepfry.Spamhunter.Store.{StoreError, not_null}
use deepfry.Base.Words.{Bytes}
use deepfry.Query.Router.{key_leb}
use deepfry.Spamhunter.Model.{F64, SubScore, Persist, Weight}
use deepfry.Spamhunter.Client.{Event}
use deepfry.Spamhunter.Store.Runs.{order_by}

-- L0_whitelist_absence
unfoldable pub l0_name : Bytes
l0_name =
    76 ∷ 48 ∷ 95 ∷ 119 ∷ 104 ∷ 105 ∷ 116 ∷ 101 ∷ 108 ∷ 105 ∷ 115 ∷ 116 ∷ 95 ∷ 97 ∷ 98 ∷ 115 ∷ 101
    ∷ 110 ∷ 99 ∷ 101 ∷ []

-- L1_near_duplicate
unfoldable pub l1_name : Bytes
l1_name =
    76 ∷ 49 ∷ 95 ∷ 110 ∷ 101 ∷ 97 ∷ 114 ∷ 95 ∷ 100 ∷ 117 ∷ 112 ∷ 108 ∷ 105 ∷ 99 ∷ 97 ∷ 116 ∷ 101
    ∷ []

-- L3_content_entropy
unfoldable pub l3_name : Bytes
l3_name =
    76 ∷ 51 ∷ 95 ∷ 99 ∷ 111 ∷ 110 ∷ 116 ∷ 101 ∷ 110 ∷ 116 ∷ 95 ∷ 101 ∷ 110 ∷ 116 ∷ 114 ∷ 111 ∷ 112
    ∷ 121 ∷ []

-- L4_link_mention
unfoldable pub l4_name : Bytes
l4_name = 76 ∷ 52 ∷ 95 ∷ 108 ∷ 105 ∷ 110 ∷ 107 ∷ 95 ∷ 109 ∷ 101 ∷ 110 ∷ 116 ∷ 105 ∷ 111 ∷ 110 ∷ []

-- _bias
unfoldable pub bias_key : Bytes
bias_key = 95 ∷ 98 ∷ 105 ∷ 97 ∷ 115 ∷ []

-- _threshold
unfoldable pub threshold_key : Bytes
threshold_key = 95 ∷ 116 ∷ 104 ∷ 114 ∷ 101 ∷ 115 ∷ 104 ∷ 111 ∷ 108 ∷ 100 ∷ []

unfoldable pub is_combiner_key : Bytes → Bool
is_combiner_key layer =
    any (bytes_eq layer) (l0_name ∷ l1_name ∷ l3_name ∷ l4_name ∷ bias_key ∷ threshold_key ∷ [])

-- What the code uses of f64; `F` are the floats that are not NaN.
pub record Floats : Type 1 where
  pub F : Type 0
  pub sum_start : F64 F
  pub plus : F64 F → F64 F → F64 F
  pub times : F64 F → F64 F → F64 F
  pub sigmoid : F64 F → F64 F
  pub exceeds : F64 F → F64 F → Bool

-- The value of a layer and its evidence as text.
pub record LayerOutput (F : Type 0) : Type 0 where
  pub value : F64 F
  pub evidence : Bytes

pub record Layer (F : Type 0) : Type 0 where
  pub name : Bytes
  pub score : List Event → Bool → LayerOutput F

-- What config.rs gives for one layer, and the layer that is built from it.
pub record LayerConfig (F : Type 0) : Type 0 where
  pub enabled : Bool
  pub weight : F64 F
  pub built : Layer F

pub record Config (F : Type 0) : Type 0 where
  pub tau : F64 F
  pub bias : F64 F
  pub l0_whitelist_absence : LayerConfig F
  pub l1_near_duplicate : LayerConfig F
  pub l3_content_entropy : LayerConfig F
  pub l4_link_mention : LayerConfig F

pub record ScoringStage (F : Type 0) : Type 0 where
  pub layers : List (Layer F)
  pub weights : List (F64 F)
  pub bias : F64 F
  pub tau : F64 F

module _ {F : Type 0} where
  -- `iter().find(|w| w.layer == layer)`
  unfoldable pub find_weight : Bytes → List (Weight F) → Option (Weight F)
  find_weight layer [] = none
  find_weight layer (w ∷ ws) = if bytes_eq w.layer layer then some w else find_weight layer ws

  -- `map(|w| w.weight).unwrap_or(fallback)`
  unfoldable pub weight_or : F64 F → Option (Weight F) → F64 F
  weight_or fallback none = fallback
  weight_or fallback (some w) = some w.weight

  -- `and_then(|w| w.threshold).unwrap_or(fallback)`
  unfoldable pub threshold_or : F64 F → Option (Weight F) → F64 F
  threshold_or fallback none = fallback
  threshold_or fallback (some w) = elim w.threshold [ none ↦ fallback | some t ↦ some t ]

  -- One of the four layers, where it is enabled, in front of those that follow.
  unfoldable pub add_layer :
      Bytes → LayerConfig F → List (Weight F) → ScoringStage F → ScoringStage F
  add_layer name cfg table stage =
      if cfg.enabled
      then record stage {
        layers = cfg.built ∷ stage.layers;
        weights = weight_or cfg.weight (find_weight name table) ∷ stage.weights;
      }
      else stage

  unfoldable pub from_config : Config F → List (Weight F) → ScoringStage F
  from_config config table = add_layer l0_name config.l0_whitelist_absence table (
      add_layer l1_name config.l1_near_duplicate table (
        add_layer l3_name config.l3_content_entropy table (
          add_layer l4_name config.l4_link_mention table (record {
            layers = [];
            weights = [];
            bias = weight_or config.bias (find_weight bias_key table);
            tau = threshold_or config.tau (find_weight threshold_key table);
          }))))

  unfoldable pub sub_score : List Event → Bool → Layer F → SubScore F
  sub_score events whitelisted layer =
      let out = layer.score events whitelisted in
      record { layer = layer.name; value = out.value; evidence = some out.evidence }

  -- `ORDER BY layer`
  unfoldable pub read_weights : List (Weight F) → List (Weight F)
  read_weights table = order_by (λ a b. key_leb a.layer b.layer) table

  unfoldable pub weight_row : Bytes → F → Option F → Weight F
  weight_row layer weight threshold = record {
    layer = layer;
    weight = weight;
    threshold = threshold;
    tuned_at = none;
    tuned_from_run = none;
  }

  -- One INSERT after the other, each a transaction of its own: `weight` is REAL NOT NULL, and
  -- `threshold` takes a NaN as NULL. No row has the key of an insert.
  unfoldable pub insert_weights :
      List (Bytes × F64 F × Option F)
      → List (Weight F)
      → List (Weight F) × Result StoreError (Unit {0})
  insert_weights [] table = (table, ok tt)
  insert_weights ((layer, none, threshold) ∷ rows) table = (table, err not_null)
  insert_weights ((layer, some weight, threshold) ∷ rows) table =
      insert_weights rows (table ++ (weight_row layer weight threshold ∷ []))

  unfoldable pub seed_weights_if_empty :
      Config F → List (Weight F) → List (Weight F) × Result StoreError (Unit {0})
  seed_weights_if_empty config table =
      if any (λ w. is_combiner_key w.layer) table
      then (table, ok tt)
      else insert_weights
          ((l0_name, config.l0_whitelist_absence.weight, none)
            ∷ (l1_name, config.l1_near_duplicate.weight, none)
            ∷ (l3_name, config.l3_content_entropy.weight, none)
            ∷ (l4_name, config.l4_link_mention.weight, none)
            ∷ (bias_key, config.bias, none)
            ∷ (threshold_key, config.tau, config.tau)
            ∷ [])
          table

module _ (f : Floats) where
  -- `iter().zip(xs).map(|(w, x)| w * x).sum()`, from the left.
  unfoldable pub weighted_sum : F64 f.F → List (F64 f.F) → List (F64 f.F) → F64 f.F
  weighted_sum total (w ∷ ws) (x ∷ xs) = weighted_sum (f.plus total (f.times w x)) ws xs
  weighted_sum total (w ∷ ws) [] = total
  weighted_sum total [] xs = total

  unfoldable pub combine : List (F64 f.F) → F64 f.F → List (F64 f.F) → F64 f.F
  combine weights bias xs = f.sigmoid (f.plus bias (weighted_sum f.sum_start weights xs))

  unfoldable pub score_pubkey : ScoringStage f.F → ℕ → Bytes → List Event → Bool → Persist f.F
  score_pubkey stage run_id pubkey events whitelisted =
      let subscores = map (sub_score events whitelisted) stage.layers in
      let score = combine stage.weights stage.bias (map (λ s. s.value) subscores) in
      record {
        run_id = run_id;
        pubkey = pubkey;
        score = score;
        whitelisted = whitelisted;
        suspected = f.exceeds score stage.tau;
        subscores = subscores;
      }
