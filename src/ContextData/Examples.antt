-- ===== src/ContextData/Examples.antt =====
-- Objects for the tests.
use dag_executor.Common.{ℕ, [], false, arith}
use dag_executor.Common.Int.{pos}
use dag_executor.ContextData.User.{UserData}
use dag_executor.ContextData.Config.{blank_engineering}
use dag_executor.ContextData.Context.{Context}
use dag_executor.ContextData.RoundTrip.Whole.{FitsContext}

abbrev pub nobody : UserData
nobody = record {
  name = [];
  age = pos 0;
  sex = [];
  location = [];
  device_id = pos 0;
  isset_device_id = false;
}

abbrev pub empty : Context ℕ
empty = record {
  eng = blank_engineering;
  video = record { list = []; model_list = []; user_scores = []; item_data = [] };
  ecom = record { list = []; model_list = []; user_scores = []; item_data = [] };
  live = record { list = []; model_list = []; user_scores = []; item_data = [] };
  comm = record { user_data = nobody; isset_user_data = false };
  isset_eng = false;
}

pub empty-FitsContext : FitsContext empty
empty-FitsContext = record {
  eng = λ e. ground arith;
  video = ground arith;
  ecom = ground arith;
  live = ground arith;
  comm = ground arith;
}
