-- ===== src/Broker/Types.antt =====
-- Words shared by the order subsystem (src/quanquant/broker/types.py): the closed sets of strings
-- as enumerations, and the request of an order. Strings that are only compared stay strings.
use quanquant.Base.{ℕ, ◌≡◌, arith, String, Bool, true, false, ◌&&◌, not, ltb, if◌then◌else◌}
use quanquant.Base.Int.{ℤ, pos, ltb_ℤ, leb_ℤ}

pub data Mode : Type 0 where
  sim real : Mode

pub data Action : Type 0 where
  buy sell : Action

pub data PriceType : Type 0 where
  lmt mkt : PriceType

pub data OrderType : Type 0 where
  rod ioc fok : OrderType

pub data OcType : Type 0 where
  new cover auto : OcType

pub data Direction : Type 0 where
  long short : Direction

abbrev pub mode_eq : Mode → Mode → Bool
mode_eq sim sim = true
mode_eq real real = true
mode_eq _ _ = false

pub mode_eq→eq : (a b : Mode) → mode_eq a b ≡ true → a ≡ b
mode_eq→eq a b h = ground arith

abbrev pub direction_eq : Direction → Direction → Bool
direction_eq long long = true
direction_eq short short = true
direction_eq _ _ = false

abbrev pub is_real : Mode → Bool
is_real real = true
is_real sim = false

abbrev pub is_cover : OcType → Bool
is_cover cover = true
is_cover _ = false

abbrev pub is_lmt : PriceType → Bool
is_lmt lmt = true
is_lmt mkt = false

abbrev pub is_rod : OrderType → Bool
is_rod rod = true
is_rod _ = false

pub record OrderRequest : Type 0 where
  pub client_order_id : String
  pub symbol : String
  pub action : Action
  pub qty : ℕ
  pub price : ℤ
  pub price_type : PriceType
  pub order_type : OrderType
  pub octype : OcType
  pub user_id : ℕ

-- The numeric checks of `OrderRequest.__post_init__`; the enumerations leave the others no case.
unfoldable pub request_accepted : OrderRequest → Bool
request_accepted r =
    ltb 0 r.qty
    && ((if is_lmt r.price_type then ltb_ℤ (pos 0) r.price else leb_ℤ (pos 0) r.price)
        && not (not (is_lmt r.price_type) && is_rod r.order_type))
