-- ===== src/Stack/System.antt =====
-- An ioctl on the device node, through `capio_ioctl_handler` (capio.c) down to `sfc7120_ioctl`
-- (sfc7120.c), and the calls `sfc7120_tx` and `sfc7120_rx` of userlib/sfc7120_user.c on top of it.
use solarflare_capio_kernel.Base.{ℕ, Bool, Option, none, some, ◌==◌, if◌then◌else◌}
use solarflare_capio_kernel.Base.Buffer.{Buffer}
use solarflare_capio_kernel.Capio.Types.{Cheri, Softc, CapReq, Ops}
use solarflare_capio_kernel.Capio.Revoke.{Vm}
use solarflare_capio_kernel.Capio.Ioctl.{Cmd, driver, Reply, ioctl_handler}
use solarflare_capio_kernel.Driver.Channel.{Channel, World, TxReq, RxReq, Command, tx, rx}
use solarflare_capio_kernel.Driver.Ioctl.{dispatch}

-- The softc of the framework and the data path of the driver's.
pub record System (Cap : Type 0) : Type 0 where
  pub capio : Softc Cap
  pub channel : Channel

-- What the driver gets: the request with its data, and its softc.
pub record Flight : Type 0 where
  pub request : Command
  pub channel : Channel

-- The driver as the framework calls it; `none` is a fault below. The number of the command goes
-- with the request.
unfoldable pub driver_ioctl : World → Option Flight → ℕ × Option Flight
driver_ioctl w none = (0, none)
driver_ioctl w (some f) = elim (dispatch w f.request f.channel) [
  | none ↦ (0, none)
  | some ((e, request), channel) ↦ (e, some (record { request = request; channel = channel }))
]

-- `sfc7120_capio_ops`: the other two functions are any.
abbrev pub below : (Option Flight → Bool) → (Option Flight → ℕ → ℕ) → World → Ops (Option Flight)
below is_dying get_buffer_size w = record {
  is_dying = is_dying;
  get_buffer_size = get_buffer_size;
  ioctl = λ n d. driver_ioctl w d;
}

abbrev pub finish :
    {Cap : Type 0}
    → Option (Reply Cap (Option Flight) × Softc Cap)
    → Option ((ℕ × CapReq Cap × Command) × System Cap)
finish none = none
finish (some ((e, req, none), s)) = none
finish (some ((e, req, some f), s)) =
    some ((e, req, f.request), record { capio = s; channel = f.channel })

-- A user's capability to memory, by what the CHERI instructions say of it.
pub record Pointer : Type 0 where
  pub has_tag : Bool
  pub may_load : Bool
  pub cap_len : ℕ
  pub bytes : Buffer

abbrev pub tx_request : Pointer → ℕ → TxReq
tx_request buf len = record {
  has_tag = buf.has_tag;
  may_load = buf.may_load;
  cap_len = buf.cap_len;
  packet = buf.bytes;
  length = len;
  status = 0;
}

abbrev pub rx_request : Buffer → RxReq
rx_request buf = record { raw_buffer = buf; length_received = 0; status = 0 }

-- The memory and the length of a request that came back.
unfoldable pub memory_of : Buffer → Command → Buffer
memory_of buf (rx req) = req.raw_buffer
memory_of buf cmd = buf

unfoldable pub length_of : Command → ℕ
length_of (rx req) = req.length_received
length_of cmd = 0

module _ {Cap : Type 0} (cheri : Cheri Cap) (is_dying : Option Flight → Bool)
    (get_buffer_size : Option Flight → ℕ → ℕ) (vm : Vm) (w : World) where
  unfoldable pub device_ioctl :
      Cmd → CapReq Cap → Command → System Cap → Option ((ℕ × CapReq Cap × Command) × System Cap)
  device_ioctl cmd req arg sys = finish (
      ioctl_handler cheri (below is_dying get_buffer_size w) vm cmd req
        (some (record { request = arg; channel = sys.channel })) sys.capio)

  -- `sfc7120_tx`: the result 0 or -1, by whether it is 0. `n` is the number of SFC7120_TX.
  unfoldable pub user_tx : ℕ → CapReq Cap → Pointer → ℕ → System Cap → Option (Bool × System Cap)
  unfolding device_ioctl
  user_tx n cap_req buf len sys =
      elim (device_ioctl (driver n) cap_req (tx (tx_request buf len)) sys) [
        | none ↦ none
        | some ((e, req, arg), sys') ↦ some (e == 0, sys')
      ]

  -- `sfc7120_rx`: the result, the memory behind `buf`, and what is stored to `len_out`. `n` is the
  -- number of SFC7120_RX.
  unfoldable pub user_rx :
      ℕ → CapReq Cap → Buffer → System Cap → Option ((Bool × Buffer × Option ℕ) × System Cap)
  unfolding device_ioctl memory_of length_of
  user_rx n cap_req buf sys = elim (device_ioctl (driver n) cap_req (rx (rx_request buf)) sys) [
    | none ↦ none
    | some ((e, req, arg), sys') ↦
        some ((e == 0, memory_of buf arg, if e == 0 then some (length_of arg) else none), sys')
  ]
