-- ===== src/Bookings/Types.antt =====
-- The tables that backend/src/bookings/bookings.service.ts reads and writes, and its events.
use playhub_playbooking.Common.{Bool, List, ℕ}
use playhub_playbooking.Pricing.{PricingRule}
use playhub_playbooking.Schema.{AvailabilityBlock, Booking, Facility, Payment}

pub data BookingEvent : Type 0 where
  booking_created booking_rescheduled booking_accepted booking_rejected : BookingEvent
  booking_arrived booking_noshow booking_completed : BookingEvent

-- An event carries the identifiers of the booking, its organization and its user; that of a
-- cancellation also whether the booking has captured payments.
pub data Event : Type 0 where
  booking_event : BookingEvent → ℕ → ℕ → ℕ → Event
  booking_cancelled : ℕ → ℕ → ℕ → Bool → Event

pub record CheckIn : Type 0 where
  pub booking_id : ℕ
  pub organization_id : ℕ
  pub facility_id : ℕ
  pub user_id : ℕ
  pub checked_in_by_id : ℕ

pub record Store : Type 0 where
  pub facilities : List Facility
  pub rules : List PricingRule
  pub blocks : List AvailabilityBlock
  pub bookings : List Booking
  pub payments : List Payment
  pub check_ins : List CheckIn
  pub events : List Event
