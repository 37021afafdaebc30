-- ===== src/ReadingOrder/Columns/Infer.antt =====
-- cpp/reading_order/docling_like_reading_order_backend.cpp: `inferColumns`. The loop that merges columns
-- until there are few enough is on fuel: each pass takes a column, so their number is enough.
use technical_doc_parser.Prelude.{
  ℕ, zero, suc, Bool, true, ◌&&◌, ◌||◌, not, Option, none, some, List, [], ◌∷◌, ◌++◌, map, ltb, leb,
  length, get_or, set, all, if◌then◌else◌,
}
use technical_doc_parser.Prelude.Double.{Double, nought, le, min, max}
use technical_doc_parser.Prelude.Sort.{stable_sort}
use technical_doc_parser.Document.Text.{BBox}
use technical_doc_parser.ReadingOrder.Columns.{
  PageElement, Column, epsilon, element_at, box_at, bbox_width, bbox_height, center_x, median,
  weighted_median, is_preferred_column_seed, merge_pair, merge_column_pair,
}

pub record ColumnCluster {ℓ} (D : Type ℓ) : Type ℓ where
  pub members : List ℕ
  pub weighted_center_sum : D
  pub vertical_support : D

-- The measures of a group that `inferColumns` compares with.
pub record Scale {ℓ} (D : Type ℓ) : Type ℓ where
  pub median_width : D
  pub median_height : D
  pub regular_width_limit : D
  pub center_tolerance : D
  pub minimum_gutter : D

-- The entries that pass, in order.
abbrev pub keep {ℓ} : {A : Type ℓ} → (A → Bool) → List A → List A
keep p [] = []
keep p (x ∷ xs) = let rest = keep p xs in if p x then x ∷ rest else rest

-- `kMaximumColumns`
abbrev pub maximum_columns : ℕ
maximum_columns = 6

module _ {ℓ} {D : Type ℓ} ⦃d : Double D⦄ where
  open d use {lit, add, sub, mul, div, abs, lt, eq, largest}

  unfoldable pub center : ColumnCluster D → D
  center cluster =
      if lt epsilon cluster.vertical_support
      then div cluster.weighted_center_sum cluster.vertical_support
      else nought

  unfoldable pub column_candidates : List (PageElement D) → List ℕ → List ℕ
  unfolding is_preferred_column_seed
  column_candidates elements indices =
      let preferred =
        keep (λ index. is_preferred_column_seed (element_at elements index).block.block_type)
          indices in
      if ltb (length preferred) 2 then indices else preferred

  unfoldable pub weight_of : BBox D → D
  unfolding bbox_height
  weight_of b = max (lit 1 1) (bbox_height b)

  unfoldable pub scale_of : List (BBox D) → Scale D
  unfolding bbox_width bbox_height weight_of weighted_median median
  scale_of boxes =
      let widths =
        map (λ b. (bbox_width b, weight_of b)) (keep (λ b. lt epsilon (bbox_width b)) boxes) in
      let heights = map bbox_height (keep (λ b. lt epsilon (bbox_height b)) boxes) in
      let median_width = max epsilon (weighted_median widths) in
      let median_height = max epsilon (median heights) in
      record {
        median_width = median_width;
        median_height = median_height;
        regular_width_limit = mul median_width (lit 135 100);
        center_tolerance =
            max (lit 1 1) (min (mul median_height (lit 75 100)) (mul median_width (lit 22 100)));
        minimum_gutter =
            max (lit 1 1) (min (mul median_height (lit 10 100)) (mul median_width (lit 2 100)));
      }

  unfoldable pub regular_less : List (PageElement D) → ℕ → ℕ → Bool
  unfolding center_x
  regular_less elements lhs rhs =
      let left = box_at elements lhs in
      let right = box_at elements rhs in
      if not (eq (center_x left) (center_x right))
      then lt (center_x left) (center_x right)
      else lt left.x0 right.x0

  unfoldable pub regular_indices : List (PageElement D) → Scale D → List ℕ → List ℕ
  unfolding bbox_width regular_less
  regular_indices elements scale candidates =
      let regular =
        keep
          (λ index. le (bbox_width (box_at elements index)) (add scale.regular_width_limit epsilon))
          candidates in
      let least = if ltb (length candidates) 2 then length candidates else 2 in
      stable_sort (regular_less elements)
        (if ltb (length regular) least then candidates else regular)

  -- The nearest cluster within the tolerance.
  unfoldable pub best_cluster : BBox D → D → Option ℕ → D → ℕ → List (ColumnCluster D) → Option ℕ
  unfolding center_x center
  best_cluster b tolerance best best_distance index [] = best
  best_cluster b tolerance best best_distance index (cluster ∷ clusters) =
      let distance = abs (sub (center_x b) (center cluster)) in
      let closer = le distance tolerance && lt distance best_distance in
      best_cluster b tolerance (if closer then some index else best)
        (if closer then distance else best_distance) (suc index) clusters

  unfoldable pub add_member : ℕ → BBox D → ColumnCluster D → ColumnCluster D
  unfolding center_x weight_of
  add_member index b cluster = record {
    members = cluster.members ++ index ∷ [];
    weighted_center_sum = add cluster.weighted_center_sum (mul (center_x b) (weight_of b));
    vertical_support = add cluster.vertical_support (weight_of b);
  }

  abbrev pub new_cluster : ℕ → BBox D → ColumnCluster D
  unfolding center_x weight_of
  new_cluster index b = record {
    members = index ∷ [];
    weighted_center_sum = mul (center_x b) (weight_of b);
    vertical_support = weight_of b;
  }

  abbrev pub no_cluster : ColumnCluster D
  no_cluster = record { members = []; weighted_center_sum = nought; vertical_support = nought }

  unfoldable pub cluster_loop :
      List (PageElement D) → D → List (ColumnCluster D) → List ℕ → List (ColumnCluster D)
  unfolding best_cluster add_member new_cluster
  cluster_loop elements tolerance clusters [] = clusters
  cluster_loop elements tolerance clusters (index ∷ regular) =
      let b = box_at elements index in
      let next : List (ColumnCluster D) = elim (best_cluster b tolerance none largest 0 clusters) [
        | none ↦ clusters ++ new_cluster index b ∷ []
        | some best ↦ set clusters best (add_member index b (get_or clusters best no_cluster))
      ] in
      cluster_loop elements tolerance next regular

  unfoldable pub is_strong : Scale D → ColumnCluster D → Bool
  is_strong scale cluster =
      leb 2 (length cluster.members)
      || le (mul scale.median_height (lit 2 1)) cluster.vertical_support

  unfoldable pub cluster_column : List (PageElement D) → ColumnCluster D → Column D
  unfolding weighted_median weight_of
  cluster_column elements cluster =
      let boxes = map (box_at elements) cluster.members in
      record {
        x0 = weighted_median (map (λ b. (b.x0, weight_of b)) boxes);
        x1 = weighted_median (map (λ b. (b.x1, weight_of b)) boxes);
      }

  unfoldable pub separated : Scale D → Column D → Column D → Bool
  separated scale candidate established =
      lt (add candidate.x1 scale.minimum_gutter) established.x0
      || lt (add established.x1 scale.minimum_gutter) candidate.x0

  -- Whether the column of a cluster is kept, of which `established` are the columns of the strong ones.
  unfoldable pub includes : Scale D → List (Column D) → ColumnCluster D → Column D → Bool
  unfolding is_strong separated
  includes scale established cluster column =
      if ltb (length established) 2 || is_strong scale cluster
      then true
      else le (mul scale.median_height (lit 75 100)) cluster.vertical_support
        && all (separated scale column) established

  unfoldable pub cluster_columns :
      List (PageElement D) → Scale D → List (ColumnCluster D) → List (Column D)
  unfolding is_strong cluster_column includes
  cluster_columns elements scale clusters =
      let established = map (cluster_column elements) (keep (is_strong scale) clusters) in
      map (cluster_column elements) (
        keep (λ cluster. includes scale established cluster (cluster_column elements cluster))
          clusters)

  unfoldable pub column_less : Column D → Column D → Bool
  column_less lhs rhs =
      let lhs_center = mul (add lhs.x0 lhs.x1) (lit 1 2) in
      let rhs_center = mul (add rhs.x0 rhs.x1) (lit 1 2) in
      if not (eq lhs_center rhs_center) then lt lhs_center rhs_center else lt lhs.x0 rhs.x0

  -- The loop that merges columns with no gutter between them, from the column at its index.
  unfoldable pub merge_close : D → Column D → List (Column D) → List (Column D)
  unfolding merge_pair
  merge_close gutter column [] = column ∷ []
  merge_close gutter column (next ∷ columns) =
      let touches = le (sub next.x0 column.x1) gutter in
      let rest = merge_close gutter (if touches then merge_pair column next else next) columns in
      if touches then rest else column ∷ rest

  -- Where the narrowest gap is.
  unfoldable pub narrowest_gap : ℕ → D → ℕ → List (Column D) → ℕ
  narrowest_gap best best_gap index [] = best
  narrowest_gap best best_gap index (column ∷ []) = best
  narrowest_gap best best_gap index (column ∷ next ∷ columns) =
      let gap = sub next.x0 column.x1 in
      let narrower = lt gap best_gap in
      narrowest_gap (if narrower then index else best) (if narrower then gap else best_gap)
        (suc index) (next ∷ columns)

  unfoldable pub limit_columns : ℕ → List (Column D) → List (Column D)
  unfolding narrowest_gap merge_column_pair
  limit_columns zero columns = columns
  limit_columns (suc fuel) columns =
      let rest =
        limit_columns fuel (merge_column_pair columns (narrowest_gap 0 largest 0 columns)) in
      if ltb maximum_columns (length columns) then rest else columns

  unfoldable pub merge_columns : D → List (Column D) → List (Column D)
  unfolding merge_close limit_columns
  merge_columns gutter [] = []
  merge_columns gutter (column ∷ columns) =
      let merged = merge_close gutter column columns in limit_columns (length merged) merged

  -- `inferColumns`
  unfoldable pub infer_columns : List (PageElement D) → List ℕ → List (Column D)
  unfolding column_candidates scale_of regular_indices cluster_loop cluster_columns column_less
      merge_columns
  infer_columns elements [] = []
  infer_columns elements (index ∷ indices) =
      let candidates = column_candidates elements (index ∷ indices) in
      let scale = scale_of (map (box_at elements) candidates) in
      let regular = regular_indices elements scale candidates in
      let clusters = cluster_loop elements scale.center_tolerance [] regular in
      merge_columns scale.minimum_gutter
        (stable_sort column_less (cluster_columns elements scale clusters))
