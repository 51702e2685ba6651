-- ===== src/Controller/Outcome.antt =====
-- The outcome of a connect call of openwrt/opensocks/src/controller.go, with one session or several.
use open_socks.Session.Engine.{Engine, System}
use open_socks.Netfilter.{Kernel}
use open_socks.Settings.{Settings}
use open_socks.Controller.{Client, Outside}
use open_socks.Controller.Serving.{Serving}

module _ {N : Type 0} (c : Client N) (o : Outside) (IsKept : Type 0) where
  abbrev kernel_of : Engine × System × Kernel → Kernel
  kernel_of (e, s, k) = k
