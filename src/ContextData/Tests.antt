-- ===== src/ContextData/Tests.antt =====
-- A context through the protocol of tokens.
use dag_executor.Common.{ℕ, List, map, refl, ◌≡◌, ◌≢◌, ◌↔◌, ◌==◌, [], ◌∷◌, ◌++◌, false, true, arith}
use dag_executor.Common.Int.{pos, negsuc}
use dag_executor.Wire.Result.{ok, stuck}
use dag_executor.Wire.Tokens.{Token, tokens-skip_int, begin, field_end, tokens, tokens-Laws}
use dag_executor.ContextData.User.{UserData, read_user}
use dag_executor.ContextData.Config.{ThreadConfig}
use dag_executor.ContextData.Item.{ItemData, blank_item}
use dag_executor.ContextData.Context.{Context, read_context, write_context}
use dag_executor.ContextData.Orders.{text_lt}
use dag_executor.Wire.Tokens.Ends.{tokens-Progress}
use dag_executor.Wire.Protocol.{t_i32}
use dag_executor.Wire.Struct.{write_struct}
use dag_executor.ContextData.AnyOrder.{read_user-entries}
use dag_executor.ContextData.AnyOrder.Entries.{Entry, name, age, sex, location, other, put_entry}
use dag_executor.Wire.Tokens.Ranges.{tokens-InRange}
use dag_executor.ContextData.Returns.{read_context-FitsContext}
use dag_executor.ContextData.Equality.{eq_context}
use dag_executor.ContextData.Equality.Received.{eq_context_iff}
use dag_executor.ContextData.Members.All.{swap_context}
use dag_executor.ContextData.Members.Arrives.{set_all, set_all-arrives}
use dag_executor.ContextData.Terminates.{read_context-terminates}
use dag_executor.ContextData.Examples.{nobody, empty}
use dag_executor.ContextData.RoundTrip.{read_context-write_context}
use dag_executor.ContextData.RoundTrip.Whole.{FitsContext, received}

abbrev config : ThreadConfig
config = record { num = pos 4; task_num = negsuc 9 }

abbrev user : UserData
user = record {
  name = 65 ∷ [];
  age = pos 30;
  sex = [];
  location = 66 ∷ 67 ∷ [];
  device_id = pos 7;
  isset_device_id = false;
}

abbrev item : ItemData ℕ
item = record {
  item_id = 1 ∷ [];
  location = [];
  scores = (1 ∷ [], 5 ∷ 6 ∷ []) ∷ (1 ∷ 2 ∷ [], []) ∷ [];
  tags = (3 ∷ []) ∷ [];
}

abbrev context : Context ℕ
context = record empty {
  eng = record {
    thread_conf = config;
    breaker_conf = record { max_latency = (9 ∷ [], pos 8) ∷ []; replace_node = [] };
  };
  video = record {
    list = pos 1 ∷ negsuc 1 ∷ [];
    model_list = [];
    user_scores = [];
    item_data = (negsuc 0, item) ∷ (pos 2, blank_item) ∷ [];
  };
  comm = record { user_data = user; isset_user_data = false };
  isset_eng = true;
}

context-FitsContext : FitsContext context
unfolding text_lt
context-FitsContext = record {
  eng = λ e. ground arith;
  video = ground arith;
  ecom = ground arith;
  live = ground arith;
  comm = ground arith;
}

read_context-write_context_example :
    read_context tokens 6 empty (write_context tokens context ++ [])
    ≡ ok (received empty context, [])
read_context-write_context_example =
    read_context-write_context tokens tokens-Laws context empty 0 [] context-FitsContext

-- Bytes that are no context.
read_context-terminates_example : read_context tokens 3 empty (begin ∷ field_end ∷ []) ≢ stuck
read_context-terminates_example =
    read_context-terminates tokens tokens-Progress 3 empty (begin ∷ field_end ∷ []) (omega arith)

-- An age, an unknown field, and the name twice.
abbrev entries : List (Entry Token)
entries =
    age (pos 5)
    ∷ other t_i32 (pos 9) (Token.int (pos 1) ∷ [])
    ∷ name (65 ∷ [])
    ∷ name (66 ∷ [])
    ∷ sex []
    ∷ location []
    ∷ []

read_user-entries_example :
    read_user tokens 7 nobody
      (write_struct tokens "UserData" (map (put_entry tokens) entries) ++ [])
    ≡ ok (record nobody { name = 66 ∷ []; age = pos 5 }, [])
read_user-entries_example = read_user-entries tokens tokens-Laws entries nobody 0 [] (
  omega arith,
  ((refl, refl, refl, refl, refl, refl, tokens-skip_int), (tt, (tt, (tt, (tt, tt))))),
)

-- The context that was read is read again.
read_context-FitsContext_example :
    FitsContext (received empty context)
    × (read_context tokens 6 empty (write_context tokens (received empty context) ++ [])
        ≡ ok (received empty (received empty context), []))
read_context-FitsContext_example =
    read_context-FitsContext tokens tokens-InRange tokens-Laws empty empty (received empty context)
      6 0 (write_context tokens context ++ []) [] []
      (record { eng = λ e. ground arith; comm = ground arith })
      (read_context-write_context tokens tokens-Laws context empty 0 [] context-FitsContext)

-- A context, and the same with other flags in its users.
abbrev flagged : Context ℕ
flagged = record context { comm = record { user_data = user; isset_user_data = true } }

eq_context_iff_example :
    (eq_context ◌==◌ context flagged ≡ true) ↔ (received empty context ≡ received empty flagged)
eq_context_iff_example = eq_context_iff (λ x y. ground arith) empty context flagged refl

abbrev built : Context ℕ
built = set_all empty context.eng context.video context.ecom context.live context.comm

built-FitsContext : FitsContext built
unfolding set_all
built-FitsContext = context-FitsContext

set_all-arrives_example :
    read_context tokens 6 flagged (write_context tokens ((swap_context empty built).0) ++ [])
    ≡ ok (received empty context, [])
set_all-arrives_example =
    set_all-arrives tokens tokens-Laws empty empty flagged context.eng context.video context.ecom
      context.live context.comm 0 [] built-FitsContext
