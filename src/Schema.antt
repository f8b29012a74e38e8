-- ===== src/Schema.antt =====
-- The tables of backend/prisma/schema.prisma that several services share, as far as the services
-- that are modelled read and write them. An identifier and an idempotency key is a number, which
-- is only compared; a moment is its milliseconds; a Decimal column holds whole paise.
use Prim.Native.String.{String}
use playhub_playbooking.Common.{Bool, List, Option, false, true, ℕ, ◌==◌}
use playhub_playbooking.Calendar.{DayOfWeek, Zone}
use playhub_playbooking.Pricing.{Segment}

pub data BookingStatus : Type 0 where
  pending confirmed cancelled rejected checked_in no_show completed : BookingStatus

abbrev pub booking_index : BookingStatus → ℕ
booking_index BookingStatus.pending = 0
booking_index confirmed = 1
booking_index BookingStatus.cancelled = 2
booking_index rejected = 3
booking_index checked_in = 4
booking_index no_show = 5
booking_index completed = 6

infix 50 ◌=b◌ ◌=p◌
abbrev pub ◌=b◌ : BookingStatus → BookingStatus → Bool
a =b b = booking_index a == booking_index b

pub data PaymentStatus : Type 0 where
  initiated pending authorized captured failed cancelled refunded : PaymentStatus

abbrev pub payment_index : PaymentStatus → ℕ
payment_index initiated = 0
payment_index PaymentStatus.pending = 1
payment_index authorized = 2
payment_index captured = 3
payment_index failed = 4
payment_index PaymentStatus.cancelled = 5
payment_index refunded = 6

abbrev pub ◌=p◌ : PaymentStatus → PaymentStatus → Bool
a =p b = payment_index a == payment_index b

pub data PaymentProvider : Type 0 where
  razorpay stripe mock : PaymentProvider

abbrev pub provider_index : PaymentProvider → ℕ
provider_index razorpay = 0
provider_index stripe = 1
provider_index mock = 2

pub data VenueStatus : Type 0 where
  draft pending_approval active suspended archived : VenueStatus

abbrev pub venue_is_active : VenueStatus → Bool
venue_is_active VenueStatus.active = true
venue_is_active _ = false

pub data FacilityStatus : Type 0 where
  active inactive maintenance archived : FacilityStatus

abbrev pub facility_is_active : FacilityStatus → Bool
facility_is_active FacilityStatus.active = true
facility_is_active _ = false

pub record OperatingHours : Type 0 where
  pub day_of_week : DayOfWeek
  pub opening_time : List ℕ
  pub closing_time : List ℕ
  pub is_closed : Bool

-- A venue with its zone and its hours; its business belongs to one organization.
pub record Venue : Type 0 where
  pub id : ℕ
  pub organization_id : ℕ
  pub status : VenueStatus
  pub timezone : Zone
  pub operating_hours : List OperatingHours

pub record Facility : Type 0 where
  pub id : ℕ
  pub name : String
  pub status : FacilityStatus
  -- in minutes
  pub default_slot_duration : ℕ
  pub venue : Venue

pub record AvailabilityBlock : Type 0 where
  pub facility_id : ℕ
  pub start_time : ℕ
  pub end_time : ℕ
  pub is_recurring : Bool
  pub day_of_week : Option DayOfWeek

pub record Booking : Type 0 where
  pub id : ℕ
  pub organization_id : ℕ
  pub facility_id : ℕ
  pub user_id : ℕ
  pub start_time : ℕ
  pub end_time : ℕ
  pub status : BookingStatus
  pub total_price : Option ℕ
  pub currency : String
  pub idempotency_key : Option ℕ
  pub price_snapshot : List Segment
  pub cancelled_at : Option ℕ
  pub cancel_reason : Option String

pub record Payment : Type 0 where
  pub id : ℕ
  pub organization_id : ℕ
  pub booking_id : ℕ
  pub amount : ℕ
  pub currency : String
  pub status : PaymentStatus
  pub provider : PaymentProvider
  pub provider_order_id : Option ℕ
  pub provider_payment_id : Option ℕ
  pub provider_signature : Option ℕ
  pub idempotency_key : Option ℕ

-- The statuses in which the queries take a booking to hold its time.
abbrev pub is_active : BookingStatus → Bool
is_active BookingStatus.pending = true
is_active confirmed = true
is_active _ = false
