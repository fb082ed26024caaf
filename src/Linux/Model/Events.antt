-- ===== src/Linux/Model/Events.antt =====
-- src/linux/model.rs: the events that the event sources emit.
use network_manager_rs.Common.{ℕ, Option, Str}
use network_manager_rs.Common.Int.{ℤ}
use network_manager_rs.Linux.Model.{Link, Address, Route}

pub data LinkEventKind : Type 0 where
  created removed changed : LinkEventKind

pub record LinkEvent : Type 0 where
  pub kind : LinkEventKind
  pub link : Link

pub data AddressEventKind : Type 0 where
  added removed : AddressEventKind

pub record AddressEvent : Type 0 where
  pub kind : AddressEventKind
  pub address : Address

pub data RouteEventKind : Type 0 where
  added removed changed : RouteEventKind

pub record RouteEvent : Type 0 where
  pub kind : RouteEventKind
  pub route : Route

pub data WifiEventKind : Type 0 where
  scan_results scan_aborted : WifiEventKind

pub record WifiEvent : Type 0 where
  pub kind : WifiEventKind
  pub interface_index : ℤ
  pub interface_name : Option Str
  pub frequency : Option ℕ

pub data NetworkEvent : Type 0 where
  of_link : LinkEvent → NetworkEvent
  of_address : AddressEvent → NetworkEvent
  of_route : RouteEvent → NetworkEvent
  of_wifi : WifiEvent → NetworkEvent

abbrev pub link_event : LinkEventKind → Link → NetworkEvent
link_event kind link = of_link (record { kind = kind; link = link })

abbrev pub address_event : AddressEventKind → Address → NetworkEvent
address_event kind address = of_address (record { kind = kind; address = address })

abbrev pub route_event : RouteEventKind → Route → NetworkEvent
route_event kind route = of_route (record { kind = kind; route = route })
