-- ===== src/Metrics/Export.antt =====
-- exportPrometheus, exportJson and formatLabels of src/Metrics.cpp. What a stream prints of a double
-- is the fixed text with six places.
use beatrice.Base.{ℕ, List, [], ◌∷◌, ◌++◌, none, some, get_elem?, length, Text, codes, decimal}
use beatrice.Base.Doubles.{Doubles}
use beatrice.Base.Maps.{Map}
use beatrice.Metrics.{
  MetricType, counter, gauge, histogram, summary, Body, counter_value, gauge_value, histogram_state,
  Metric, MetricsRegistry,
}
use beatrice.Metrics.Names.{sanitize_metric_name}

-- "\n" and "\""
abbrev pub newline : Text
newline = 10 ∷ []

abbrev quote : Text
quote = b'"' ∷ []

unfoldable pub label_text : Text × Text → Text
label_text (key, value) = key ++ (codes "=" ++ (quote ++ (value ++ quote)))

-- The labels behind the first, each with a comma in front.
unfoldable pub more_labels : Map Text → Text
unfolding label_text
more_labels [] = []
more_labels (l ∷ ls) = codes "," ++ (label_text l ++ more_labels ls)

unfoldable pub format_labels : Map Text → Text
unfolding label_text more_labels
format_labels [] = []
format_labels (l ∷ ls) = codes "{" ++ (label_text l ++ (more_labels ls ++ codes "}"))

-- name, suffix, labels, a space, the number and the end of the line.
unfoldable pub sample : Metric → Text → Text → Text
unfolding format_labels
sample m suffix number =
    sanitize_metric_name m.name
    ++ (suffix ++ (format_labels m.labels ++ (codes " " ++ (number ++ newline))))

unfoldable pub type_line : Metric → Text → Text
type_line m type =
    codes "# TYPE " ++ (sanitize_metric_name m.name ++ (codes " " ++ (type ++ newline)))

-- The cast to the class that the type names: a null pointer prints no sample.
unfoldable pub prometheus_samples : Doubles → Metric → MetricType → Body → Text
unfolding sample type_line
prometheus_samples d m counter (counter_value v) =
    type_line m (codes "counter") ++ sample m [] (d.fixed_text v)
prometheus_samples d m counter other = type_line m (codes "counter")
prometheus_samples d m gauge (gauge_value v) =
    type_line m (codes "gauge") ++ sample m [] (d.fixed_text v)
prometheus_samples d m gauge other = type_line m (codes "gauge")
prometheus_samples d m histogram (histogram_state h) =
    type_line m (codes "histogram")
    ++ (sample m (codes "_count") (decimal h.count)
        ++ (sample m (codes "_sum") (d.fixed_text h.sum)
            ++ (sample m (codes "_min") (d.fixed_text h.min_value)
                ++ sample m (codes "_max") (d.fixed_text h.max_value))))
prometheus_samples d m histogram other = type_line m (codes "histogram")
prometheus_samples d m summary other = []

-- The text behind "# HELP" is the name again.
unfoldable pub prometheus_metric : Doubles → Metric → Text
unfolding prometheus_samples
prometheus_metric d m =
    codes "# HELP "
    ++ (sanitize_metric_name m.name
        ++ (codes " " ++ (m.name ++ (newline ++ prometheus_samples d m m.type m.body))))

-- The objects that the names point at, in the map's order.
unfoldable pub named_objects : List Metric → Map ℕ → List Metric
named_objects ms [] = []
named_objects ms ((name, i) ∷ names) = elim (get_elem? ms i) [
  | none ↦ named_objects ms names
  | some m ↦ m ∷ named_objects ms names
]

unfoldable pub prometheus_metrics : Doubles → List Metric → Text
unfolding prometheus_metric
prometheus_metrics d [] = []
prometheus_metrics d (m ∷ ms) = prometheus_metric d m ++ prometheus_metrics d ms

unfoldable pub export_prometheus : Doubles → MetricsRegistry → Text
unfolding prometheus_metrics named_objects
export_prometheus d r = prometheus_metrics d (named_objects r.objects r.metrics)

unfoldable pub type_name : MetricType → Text
type_name counter = codes "counter"
type_name gauge = codes "gauge"
type_name histogram = codes "histogram"
type_name summary = codes "summary"

-- A member of the object of one metric: "      \"key\": value" and the end of the line.
unfoldable pub member : Text → Text → Text → Text
member key value end =
    codes "      " ++ (quote ++ (key ++ (quote ++ (codes ": " ++ (value ++ (end ++ newline))))))

unfoldable pub json_values : Doubles → MetricType → Body → Text
unfolding member
json_values d counter (counter_value v) = member (codes "value") (d.fixed_text v) []
json_values d counter other = []
json_values d gauge (gauge_value v) = member (codes "value") (d.fixed_text v) []
json_values d gauge other = []
json_values d histogram (histogram_state h) =
    member (codes "count") (decimal h.count) (codes ",")
    ++ (member (codes "sum") (d.fixed_text h.sum) (codes ",")
        ++ (member (codes "min") (d.fixed_text h.min_value) (codes ",")
            ++ member (codes "max") (d.fixed_text h.max_value) []))
json_values d histogram other = []
json_values d summary other = member (codes "value") (codes "0") []

-- Names and descriptions are not escaped.
unfoldable pub json_metric : Doubles → Metric → Text
unfolding member type_name json_values
json_metric d m =
    codes "    {"
    ++ (newline
        ++ (member (codes "name") (quote ++ (m.name ++ quote)) (codes ",")
            ++ (member (codes "type") (quote ++ (type_name m.type ++ quote)) (codes ",")
                ++ (member (codes "description") (quote ++ (m.description ++ quote)) (codes ",")
                    ++ (json_values d m.type m.body ++ codes "    }")))))

-- The metrics behind the first, each with a comma in front.
unfoldable pub json_more : Doubles → List Metric → Text
unfolding json_metric
json_more d [] = []
json_more d (m ∷ ms) = codes "," ++ (newline ++ (json_metric d m ++ json_more d ms))

unfoldable pub json_metrics : Doubles → List Metric → Text
unfolding json_metric json_more
json_metrics d [] = []
json_metrics d (m ∷ ms) = json_metric d m ++ json_more d ms

unfoldable pub export_json : Doubles → MetricsRegistry → Text
unfolding json_metrics named_objects
export_json d r =
    codes "{"
    ++ (newline
        ++ (codes "  "
            ++ (quote
                ++ (codes "metrics"
                    ++ (quote
                        ++ (codes ": ["
                            ++ (newline
                                ++ (json_metrics d (named_objects r.objects r.metrics)
                                    ++ (newline
                                        ++ (codes "  ],"
                                            ++ (newline
                                                ++ (codes "  "
                                                    ++ (quote
                                                        ++ (codes "total_metrics"
                                                            ++ (quote
                                                            ++ (codes ": "
                                                            ++ (decimal (length r.metrics)
                                                            ++ (newline
                                                            ++ (codes "}"
                                                            ++ newline)))))))))))))))))))
