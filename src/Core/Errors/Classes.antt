-- ===== src/Core/Errors/Classes.antt =====
-- The classes of SDK errors.
use cubesql_go_driver.Prelude.{ℤ, true, is_some, Bytes, ◌≡◌, arith, positive}
use cubesql_go_driver.Core.Errors.{classify_error, unwrap}

-- Every server error code (a positive one) gets a class that `errors.Is` can find.
pub positive-Classified :
    (code : ℤ) (message : Bytes)
    → positive code ≡ true
    → is_some (unwrap (classify_error code message)) ≡ true
unfolding classify_error unwrap
positive-Classified code message h = ground arith
