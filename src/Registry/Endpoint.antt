-- ===== src/Registry/Endpoint.antt =====
-- The fields of `EndpointF` that RegistryServer reads and writes, and the constants of
-- RegistryServer/util.h.
use tars_framework.Base.{String}
use tars_framework.Base.Int.{ℤ, pos}

pub record EndpointF : Type 0 where
  pub host : String
  pub port : ℤ
  pub groupworkid : ℤ
  pub grouprealid : ℤ
  pub weight : ℤ
  pub weight_type : ℤ

abbrev pub default_weight : ℤ
default_weight = pos 100

abbrev pub min_weight : ℤ
min_weight = pos 10

abbrev pub weight_percent_unit : ℤ
weight_percent_unit = pos 100

abbrev pub timeout_weight_factor : ℤ
timeout_weight_factor = pos 90

abbrev pub timeout_weight_proportion : String
timeout_weight_proportion = "timeout-weight"

abbrev pub time_consuming_weight_proportion : String
time_consuming_weight_proportion = "timeout-consuming"

abbrev pub load_balance_loop : ℤ
load_balance_loop = pos 0

abbrev pub load_balance_static_weight : ℤ
load_balance_static_weight = pos 1

abbrev pub load_balance_dynamic_weight : ℤ
load_balance_dynamic_weight = pos 2
