-- ===== src/ContextData/Members/Parts.antt =====
-- Copies and swaps of the classes of a context's configuration and user, member by member
-- (access_control/gen-cpp/data_define_template_types.cpp).
use dag_executor.ContextData.User.{UserData, Common}
use dag_executor.ContextData.Config.{ThreadConfig, CircuitBreaker, Engineering}

-- `UserData::operator=`, onto `a`
unfoldable pub assign_user : UserData → UserData → UserData
assign_user a other = record a {
  name = other.name;
  age = other.age;
  sex = other.sex;
  location = other.location;
  device_id = other.device_id;
  isset_device_id = other.isset_device_id;
}

-- `swap` of two `UserData`
unfoldable pub swap_user : UserData → UserData → UserData × UserData
swap_user a b = (
  record a {
    name = b.name;
    age = b.age;
    sex = b.sex;
    location = b.location;
    device_id = b.device_id;
    isset_device_id = b.isset_device_id;
  },
  record b {
    name = a.name;
    age = a.age;
    sex = a.sex;
    location = a.location;
    device_id = a.device_id;
    isset_device_id = a.isset_device_id;
  },
)

-- `ThreadConfig::operator=`, onto `a`
unfoldable pub assign_config : ThreadConfig → ThreadConfig → ThreadConfig
assign_config a other = record a { num = other.num; task_num = other.task_num }

-- `swap` of two `ThreadConfig`
unfoldable pub swap_config : ThreadConfig → ThreadConfig → ThreadConfig × ThreadConfig
swap_config a b = (
  record a { num = b.num; task_num = b.task_num },
  record b { num = a.num; task_num = a.task_num },
)

-- `CircuitBreaker::operator=`, onto `a`
unfoldable pub assign_breaker : CircuitBreaker → CircuitBreaker → CircuitBreaker
assign_breaker a other = record a {
  max_latency = other.max_latency;
  replace_node = other.replace_node;
}

-- `swap` of two `CircuitBreaker`
unfoldable pub swap_breaker : CircuitBreaker → CircuitBreaker → CircuitBreaker × CircuitBreaker
swap_breaker a b = (
  record a { max_latency = b.max_latency; replace_node = b.replace_node },
  record b { max_latency = a.max_latency; replace_node = a.replace_node },
)

-- `Engineering::operator=`, onto `a`
unfoldable pub assign_engineering : Engineering → Engineering → Engineering
unfolding assign_config assign_breaker
assign_engineering a other = record a {
  thread_conf = assign_config a.thread_conf other.thread_conf;
  breaker_conf = assign_breaker a.breaker_conf other.breaker_conf;
}

-- `swap` of two `Engineering`
unfoldable pub swap_engineering : Engineering → Engineering → Engineering × Engineering
unfolding swap_config swap_breaker
swap_engineering a b = (
  record a {
    thread_conf = (swap_config a.thread_conf b.thread_conf).0;
    breaker_conf = (swap_breaker a.breaker_conf b.breaker_conf).0;
  },
  record b {
    thread_conf = (swap_config a.thread_conf b.thread_conf).1;
    breaker_conf = (swap_breaker a.breaker_conf b.breaker_conf).1;
  },
)

-- `Common::operator=`, onto `a`
unfoldable pub assign_common : Common → Common → Common
unfolding assign_user
assign_common a other = record a {
  user_data = assign_user a.user_data other.user_data;
  isset_user_data = other.isset_user_data;
}

-- `swap` of two `Common`
unfoldable pub swap_common : Common → Common → Common × Common
unfolding swap_user
swap_common a b = (
  record a {
    user_data = (swap_user a.user_data b.user_data).0;
    isset_user_data = b.isset_user_data;
  },
  record b {
    user_data = (swap_user a.user_data b.user_data).1;
    isset_user_data = a.isset_user_data;
  },
)
