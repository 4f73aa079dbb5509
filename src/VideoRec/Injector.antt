-- ===== src/VideoRec/Injector.antt =====
-- cs426-fall24/lab1/failure_injection/failure_injection.go: injected delays, errors and omissions.
use building_distributed_sys.Prelude.{ℕ, ◌%◌, ◌≡◌, refl, ◌==◌, if◌then◌else◌}
use building_distributed_sys.Prelude.Int.{ℤ, pos, negsuc}

pub record InjectionConfig : Type 0 where
  pub sleep_ns : ℤ
  pub failure_rate : ℤ
  pub response_omission_rate : ℤ

pub record FailureInjector : Type 0 where
  pub config : InjectionConfig

-- `MakeFailureInjector`
abbrev pub make_failure_injector : FailureInjector
make_failure_injector = record {
  config = record { sleep_ns = pos 0; failure_rate = pos 0; response_omission_rate = pos 0 };
}

-- `SetInjectionConfig`
unfoldable pub set_injection_config : ℤ → ℤ → ℤ → FailureInjector → FailureInjector
set_injection_config sleep_ns failure_rate response_omission_rate fi = record {
  config = record {
    sleep_ns = sleep_ns;
    failure_rate = failure_rate;
    response_omission_rate = response_omission_rate;
  };
}

-- `SetInjectionConfigPb`
unfoldable pub set_injection_config_pb : InjectionConfig → FailureInjector → FailureInjector
set_injection_config_pb config fi = record { config = config }

-- `ClearInjectionConfig`
unfoldable pub clear_injection_config : FailureInjector → FailureInjector
clear_injection_config fi = set_injection_config (pos 0) (pos 0) (pos 0) fi

-- What `MaybeInject` does to the caller: it goes on, is told to fail, never comes back, or panics
-- (`rand.Int63n` of a negative number).
pub data Injection : Type 0 where
  proceed fail hang crash : Injection

-- One draw of `oneIn`: `random` stands for the number that `rand.Int63` draws.
pub data Draw : Type 0 where
  hit missed bad_rate : Draw

unfoldable pub one_in : ℕ → ℤ → Draw
one_in random (pos n) = if n == 0 then missed else if random % n == 0 then hit else missed
one_in random (negsuc n) = bad_rate

unfoldable pub combine : Draw → Draw → Injection
combine bad_rate d = crash
combine hit bad_rate = crash
combine missed bad_rate = crash
combine hit hit = hang
combine missed hit = hang
combine hit missed = fail
combine missed missed = proceed

-- `MaybeInject`, after the sleep
unfoldable pub maybe_inject : ℕ → ℕ → FailureInjector → Injection
maybe_inject random1 random2 fi =
    combine (one_in random1 fi.config.failure_rate)
      (one_in random2 fi.config.response_omission_rate)

-- A cleared injector lets every request through, whatever is drawn.
pub cleared_lem :
    (random1 random2 : ℕ) (fi : FailureInjector)
    → maybe_inject random1 random2 (clear_injection_config fi) ≡ proceed
unfolding maybe_inject clear_injection_config set_injection_config one_in combine
cleared_lem random1 random2 fi = refl
