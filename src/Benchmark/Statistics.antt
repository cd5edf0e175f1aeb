-- ===== src/Benchmark/Statistics.antt =====
-- StatElement, StatGroup and Statistics, benchmark/core/statistics.h. A vector is a list.
use sigmod2012contest.Base.{List, [], ◌∷◌, ◌++◌}
use sigmod2012contest.Containers.Text.{Text}

pub record StatElement : Type 0 where
  pub metric : Text
  pub value : Text

pub record StatGroup : Type 0 where
  pub name : Text
  pub elements : List StatElement

pub record Statistics : Type 0 where
  pub elements : List StatElement
  pub groups : List StatGroup

-- StatGroup::Add and StatGroup::AddFront, of an element and of a metric with its value.
unfoldable pub add_to_group : StatElement → StatGroup → StatGroup
add_to_group element g = record g { elements = g.elements ++ (element ∷ []) }

unfoldable pub add_value_to_group : Text → Text → StatGroup → StatGroup
unfolding add_to_group
add_value_to_group metric value = add_to_group (record { metric = metric; value = value })

unfoldable pub add_front_to_group : StatElement → StatGroup → StatGroup
add_front_to_group element g = record g { elements = element ∷ g.elements }

unfoldable pub add_value_front_to_group : Text → Text → StatGroup → StatGroup
unfolding add_to_group
add_value_front_to_group metric value = add_to_group (record { metric = metric; value = value })

-- Statistics::Add, Statistics::AddFront and Statistics::AddGroup.
unfoldable pub add : StatElement → Statistics → Statistics
add element s = record s { elements = s.elements ++ (element ∷ []) }

unfoldable pub add_value : Text → Text → Statistics → Statistics
unfolding add
add_value metric value = add (record { metric = metric; value = value })

unfoldable pub add_front : StatElement → Statistics → Statistics
add_front element s = record s { elements = element ∷ s.elements }

unfoldable pub add_value_front : Text → Text → Statistics → Statistics
unfolding add
add_value_front metric value = add (record { metric = metric; value = value })

unfoldable pub add_group : StatGroup → Statistics → Statistics
add_group group s = record s { groups = s.groups ++ (group ∷ []) }
