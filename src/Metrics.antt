-- ===== src/Metrics.antt =====
-- Metrics of include/beatrice/Metrics.hpp and src/Metrics.cpp. A std::shared_ptr is the number of an
-- object: the registry's names point at objects, and who holds an older pointer keeps its object.
pub mod Names
pub mod Export
pub mod Handles
pub mod Observe
mod Tests
use beatrice.Base.{
  ℕ, ◌+◌, ◌-◌, ◌≤◌, Bool, true, false, not, ◌&&◌, ◌||◌, List, [], ◌∷◌, ◌++◌, Option, none, some,
  length, get_elem?, set, Text, is_empty, if◌then◌else◌, Result, ok, err, or_fault, out_of_bounds,
}
use beatrice.Base.Doubles.{Doubles}
use beatrice.Base.Words.{size_add}
use beatrice.Base.Maps.{Map, lookup, insert}

pub data MetricType : Type 0 where
  counter gauge histogram summary : MetricType

pub record Histogram : Type 0 where
  pub count : ℕ
  pub sum : ℕ
  pub min_value : ℕ
  pub max_value : ℕ
  pub values : List ℕ

-- What a subclass adds.
pub data Body : Type 0 where
  counter_value gauge_value : ℕ → Body
  histogram_state : Histogram → Body

pub record Metric : Type 0 where
  pub name : Text
  pub type : MetricType
  pub description : Text
  pub labels : Map Text
  pub body : Body

pub record MetricsRegistry : Type 0 where
  pub objects : List Metric
  pub metrics : Map ℕ

unfoldable pub new_counter : Doubles → Text → Text → Metric
new_counter d name description = record {
  name = name;
  type = counter;
  description = description;
  labels = [];
  body = counter_value d.zero_point;
}

unfoldable pub new_gauge : Doubles → Text → Text → Metric
new_gauge d name description = record {
  name = name;
  type = gauge;
  description = description;
  labels = [];
  body = gauge_value d.zero_point;
}

unfoldable pub new_histogram_state : Doubles → Histogram
new_histogram_state d = record {
  count = 0;
  sum = d.zero_point;
  min_value = d.largest;
  max_value = d.lowest;
  values = [];
}

unfoldable pub new_histogram : Doubles → Text → Text → Metric
unfolding new_histogram_state
new_histogram d name description = record {
  name = name;
  type = histogram;
  description = description;
  labels = [];
  body = histogram_state (new_histogram_state d);
}

-- std::make_shared, and metrics_[name] = the pointer.
unfoldable pub register : MetricsRegistry → Text → Metric → MetricsRegistry × ℕ
register r name m = (
  record { objects = r.objects ++ m ∷ []; metrics = insert name (length r.objects) r.metrics },
  length r.objects,
)

unfoldable pub create_counter : Doubles → MetricsRegistry → Text → Text → MetricsRegistry × ℕ
unfolding register new_counter
create_counter d r name description = register r name (new_counter d name description)

unfoldable pub create_gauge : Doubles → MetricsRegistry → Text → Text → MetricsRegistry × ℕ
unfolding register new_gauge
create_gauge d r name description = register r name (new_gauge d name description)

unfoldable pub create_histogram : Doubles → MetricsRegistry → Text → Text → MetricsRegistry × ℕ
unfolding register new_histogram
create_histogram d r name description = register r name (new_histogram d name description)

-- nullptr is `none`.
unfoldable pub get_metric : MetricsRegistry → Text → Option ℕ
get_metric r name = lookup name r.metrics

-- The names are cleared; the objects live on with whoever holds them.
unfoldable pub clear : MetricsRegistry → MetricsRegistry
clear r = record r { metrics = [] }

-- A method of the object behind a pointer.
unfoldable pub update_body : (Body → Body) → List Metric → ℕ → List Metric
update_body f ms i = elim (get_elem? ms i) [
  | none ↦ ms
  | some m ↦ set ms i (record m { body = f m.body })
]

unfoldable pub added : Doubles → ℕ → Body → Body
added d amount (counter_value v) = counter_value (d.add v amount)
added d amount (gauge_value v) = gauge_value (d.add v amount)
added d amount (histogram_state h) = histogram_state h

unfoldable pub subtracted : Doubles → ℕ → Body → Body
subtracted d amount (gauge_value v) = gauge_value (d.sub v amount)
subtracted d amount (counter_value v) = counter_value v
subtracted d amount (histogram_state h) = histogram_state h

unfoldable pub replaced : ℕ → Body → Body
replaced v (counter_value old) = counter_value v
replaced v (gauge_value old) = gauge_value v
replaced v (histogram_state h) = histogram_state h

-- Counter::increment(amount) and Gauge::increment.
unfoldable pub increment_by : Doubles → MetricsRegistry → ℕ → ℕ → MetricsRegistry
unfolding update_body added
increment_by d r handle amount = record r {
  objects = update_body (added d amount) r.objects handle;
}

-- Counter::increment(): 1 is converted to a double.
unfoldable pub increment : Doubles → MetricsRegistry → ℕ → MetricsRegistry
unfolding increment_by
increment d r handle = increment_by d r handle (d.of_uint64 1)

-- Gauge::decrement.
unfoldable pub decrement : Doubles → MetricsRegistry → ℕ → ℕ → MetricsRegistry
unfolding update_body subtracted
decrement d r handle amount = record r {
  objects = update_body (subtracted d amount) r.objects handle;
}

-- Gauge::set, and Counter::reset with 0.0.
unfoldable pub set_value : MetricsRegistry → ℕ → ℕ → MetricsRegistry
unfolding update_body replaced
set_value r handle v = record r { objects = update_body (replaced v) r.objects handle }

-- Histogram::observe where no other thread comes between.
unfoldable pub observed : Doubles → ℕ → Histogram → Histogram
observed d v h = record {
  count = size_add h.count 1;
  sum = d.add h.sum v;
  min_value = if d.lt v h.min_value then v else h.min_value;
  max_value = if d.lt h.max_value v then v else h.max_value;
  values = h.values ++ v ∷ [];
}

unfoldable pub with_observed : Doubles → ℕ → Body → Body
unfolding observed
with_observed d v (histogram_state h) = histogram_state (observed d v h)
with_observed d v (counter_value old) = counter_value old
with_observed d v (gauge_value old) = gauge_value old

unfoldable pub observe : Doubles → MetricsRegistry → ℕ → ℕ → MetricsRegistry
unfolding update_body with_observed
observe d r handle v = record r { objects = update_body (with_observed d v) r.objects handle }

-- std::sort of the values, and the index that a quantile has in a list of that size.
pub record Quantiles : Type 0 where
  pub sort : List ℕ → List ℕ
  pub unit_point : ℕ
  pub index : ℕ → ℕ → ℕ

unfoldable pub get_quantile : Doubles → Quantiles → Histogram → ℕ → Result ℕ
get_quantile d q h quantile =
    if d.lt quantile d.zero_point || d.lt q.unit_point quantile
    then ok d.zero_point
    else if is_empty h.values
    then ok d.zero_point
    else or_fault (get_elem? (q.sort h.values) (q.index quantile (length (q.sort h.values) - 1)))
        out_of_bounds
